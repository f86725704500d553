-- ===== src/Utils/Split.antt =====
-- `split_string` (simulation/ranger_console/utils.cpp).
use risc_v_rv32i_multi_cycle.Prelude.{
  ℕ, ◌≡◌, ◌≢◌, refl, true, false, [], ◌∷◌, ◌++◌, All, Bytes, List, inl, inr, Bool-cases,
  append_assoc, append-nil, ap, sym, ◌∙◌, starts_with, starts_with→append, All-append,
}
use risc_v_rv32i_multi_cycle.Utils.{is_space, push_word, split_from, split_string}

-- No character of the text is white space.
abbrev NoSpace : Bytes → Type 0
NoSpace = All (λ c. is_space c ≡ false)

-- A word: some characters, none of them white space.
abbrev pub IsWord : Bytes → Type 0
IsWord w = (w ≢ []) × NoSpace w

-- The words, each followed by one blank.
abbrev unwords : List Bytes → Bytes
unwords [] = []
unwords (w ∷ ws) = w ++ 32 ∷ unwords ws

push_word-IsWord :
    (cur : Bytes) (fields : List Bytes)
    → NoSpace cur
    → All IsWord fields
    → All IsWord (push_word cur fields)
push_word-IsWord [] fields h hs = hs
push_word-IsWord (c ∷ cur) fields h hs = (((λ e. cc e), h), hs)

split_space :
    (cur : Bytes) (c : ℕ) (s : Bytes)
    → is_space c ≡ true
    → split_from cur (c ∷ s) ≡ push_word cur (split_from [] s)
unfolding split_from
split_space cur c s h = rw (h, split_from)

split_char :
    (cur : Bytes) (c : ℕ) (s : Bytes)
    → is_space c ≡ false
    → split_from cur (c ∷ s) ≡ split_from (cur ++ c ∷ []) s
unfolding split_from
split_char cur c s h = rw (h, split_from)

split_from-IsWord : (cur s : Bytes) → NoSpace cur → All IsWord (split_from cur s)
split_from-IsWord cur [] h = unfold split_from in push_word-IsWord cur [] h tt
split_from-IsWord cur (c ∷ s) h = elim (Bool-cases (is_space c)) [
  | inl e ↦ rw (split_space cur c s e) (push_word-IsWord cur _ h (split_from-IsWord [] s tt))
  | inr e ↦ rw (split_char cur c s e) (
      split_from-IsWord (cur ++ c ∷ []) s
        (All-append (λ c. is_space c ≡ false) cur (c ∷ []) h (e, tt)))
]

-- A command line falls into fields that are not empty and hold no white space.
split_string-IsWord : (s : Bytes) → All IsWord (split_string s)
unfolding split_string
split_string-IsWord s = split_from-IsWord [] s tt

split_from-append :
    (cur w rest : Bytes) → NoSpace w → split_from cur (w ++ rest) ≡ split_from (cur ++ w) rest
split_from-append cur [] rest h = rw append-nil
split_from-append cur (c ∷ w) rest (h, hs) =
    split_char cur c (w ++ rest) h
    ∙ split_from-append (cur ++ c ∷ []) w rest hs
    ∙ ap (λ t. split_from t rest) (append_assoc cur (c ∷ []) w)

push_nonempty : (w : Bytes) (fields : List Bytes) → w ≢ [] → push_word w fields ≡ w ∷ fields
push_nonempty [] fields h = absurd (h refl)
push_nonempty (c ∷ w) fields h = refl

split_at_blank :
    (cur rest : Bytes) → split_from cur (32 ∷ rest) ≡ push_word cur (split_from [] rest)
unfolding split_from
split_at_blank cur rest = refl

-- Words joined by blanks are the fields of the line.
split_string-unwords : (ws : List Bytes) → All IsWord ws → split_string (unwords ws) ≡ ws
unfolding split_string
split_string-unwords [] h = unfold split_from in refl
split_string-unwords (w ∷ ws) ((ne, h), hs) = rw (
  split_from-append [] w (32 ∷ unwords ws) h,
  split_at_blank,
  push_nonempty w _ ne,
  split_string-unwords ws hs,
)

snoc-ne-nil : (cur : Bytes) (c : ℕ) → cur ++ c ∷ [] ≢ []
snoc-ne-nil [] c = λ e. cc e
snoc-ne-nil (b ∷ cur) c = λ e. cc e

split_from_first :
    (cur s : Bytes) → cur ≢ [] → (f : Bytes) × (fs : List Bytes) × (split_from cur s ≡ f ∷ fs)
split_from_first cur [] ne = (cur, [], unfold split_from in push_nonempty cur [] ne)
split_from_first cur (c ∷ s) ne = elim (Bool-cases (is_space c)) [
  | inl e ↦ (cur, split_from [] s, split_space cur c s e ∙ push_nonempty cur _ ne)
  | inr e ↦
      let (f, fs, rest) = split_from_first (cur ++ c ∷ []) s (snoc-ne-nil cur c) in
      (f, fs, split_char cur c s e ∙ rest)
]

-- A text that begins with a word has a first field.
split_string-first :
    (p s : Bytes)
    → IsWord p
    → starts_with p s ≡ true
    → (f : Bytes) × (fs : List Bytes) × (split_string s ≡ f ∷ fs)
unfolding split_string
split_string-first p s (ne, h) st =
    let (r, e) = starts_with→append p s st in
    let (f, fs, first) = split_from_first p r ne in
    (f, fs, ap (λ t. split_from [] t) e ∙ split_from-append [] p r h ∙ first)

-- The first word and a blank behind it are taken off.
pub split_string-cons : (w s : Bytes) → IsWord w → split_string (w ++ 32 ∷ s) ≡ w ∷ split_string s
unfolding split_string
split_string-cons w s (ne, h) =
    split_from-append [] w (32 ∷ s) h ∙ split_at_blank w s ∙ push_nonempty w (split_from [] s) ne

pub split_string-word : (w : Bytes) → IsWord w → split_string w ≡ w ∷ []
unfolding split_string
split_string-word w (ne, h) =
    ap (λ t. split_from [] t) (sym (append-nil w))
    ∙ split_from-append [] w [] h
    ∙ unfold split_from in push_nonempty w [] ne
