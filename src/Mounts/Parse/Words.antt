-- ===== src/Mounts/Parse/Words.antt =====
-- collect/mounts.py: fields that are joined by spaces are split again, and a line is partitioned at
-- its separator.
use watchdirs.Prelude.{
  Empty, ℕ, ◌≡◌, ◌≢◌, refl, sym, ap, ◌∙◌, true, false, Option, none, some, List, [], ◌∷◌, ◌++◌,
  arith, ◌==◌, All,
}
use mathlib.Core.List.{append_assoc, append-nil}
use watchdirs.Prelude.Bytes.{Bytes, starts_with}
use watchdirs.Prelude.Text.{is_space}
use watchdirs.Mounts.Parse.{field_separator, behind, push_front, starts_word, partition, words}

-- no white space, and at least one byte
abbrev pub IsWord : Bytes → Type 0
IsWord [] = Empty
IsWord (c ∷ cs) = All (λ d. is_space d ≡ false) (c ∷ cs)

-- a word that is not the separator
abbrev pub IsField : Bytes → Type 0
IsField w = IsWord w × (w ≢ b'-' ∷ [])

-- with one separator between two
abbrev pub join_with : ℕ → List Bytes → Bytes
join_with sep [] = []
join_with sep (w ∷ []) = w
join_with sep (w ∷ v ∷ ws) = w ++ (sep ∷ join_with sep (v ∷ ws))

words_step :
    (c : ℕ) (cs : Bytes)
    → is_space c ≡ false
    → starts_word cs ≡ true
    → words (c ∷ cs) ≡ push_front c (words cs)
unfolding words
words_step c cs h k = rw (h, k) refl

words_last : (w : Bytes) → IsWord w → words w ≡ w ∷ []
words_last [] h = elim h [ ]
words_last (c ∷ []) h = unfold words in rw (h.0) refl
words_last (c ∷ d ∷ cs) h =
    let step = words_step c (d ∷ cs) h.0 (ground (arith, h.1.0)) in
    step ∙ ap (push_front c) (words_last (d ∷ cs) h.1)

words-append : (w rest : Bytes) → IsWord w → words (w ++ (b' ' ∷ rest)) ≡ w ∷ words rest
words-append [] rest h = elim h [ ]
words-append (c ∷ []) rest h = unfold words in rw (h.0) refl
words-append (c ∷ d ∷ cs) rest h =
    let step = words_step c (d ∷ cs ++ (b' ' ∷ rest)) h.0 (ground (arith, h.1.0)) in
    step ∙ ap (push_front c) (words-append (d ∷ cs) rest h.1)

pub words-join_with : (ws : List Bytes) → All IsWord ws → words (join_with b' ' ws) ≡ ws
words-join_with [] h = unfold words in refl
words-join_with (w ∷ []) h = words_last w h.0
words-join_with (w ∷ v ∷ ws) h =
    words-append w (join_with b' ' (v ∷ ws)) h.0 ∙ ap (λ r. w ∷ r) (words-join_with (v ∷ ws) h.1)

word_plain : (w : Bytes) → IsWord w → All (λ d. is_space d ≡ false) w
word_plain [] h = tt
word_plain (c ∷ cs) h = h

behind_nothing : (o : Option (Bytes × Bytes)) → behind [] o ≡ o
behind_nothing none = refl
behind_nothing (some (left, right)) = refl

behind-behind :
    (c : ℕ) (w : Bytes) (o : Option (Bytes × Bytes))
    → behind (c ∷ []) (behind w o) ≡ behind (c ∷ w) o
behind-behind c w none = refl
behind-behind c w (some (left, right)) = refl

partition_step :
    (c : ℕ) (cs : Bytes)
    → starts_with (c ∷ cs) field_separator ≡ false
    → partition (c ∷ cs) ≡ behind (c ∷ []) (partition cs)
unfolding partition
partition_step c cs h = rw h refl

-- a word is passed over
partition_word :
    (w rest : Bytes)
    → All (λ d. is_space d ≡ false) w
    → partition (w ++ rest) ≡ behind w (partition rest)
partition_word [] rest h = sym (behind_nothing (partition rest))
partition_word (c ∷ w) rest h =
    let no_space : (c == 32) ≡ false = ground (arith, h.0) in
    let step = partition_step c (w ++ rest) (unfold starts_with in rw no_space refl) in
    step ∙ ap (behind (c ∷ [])) (partition_word w rest h.1) ∙ behind-behind c w (partition rest)

-- a space that a field follows is no separator
no_dash :
    (ws : List Bytes) (v rest : Bytes)
    → IsField v
    → starts_with (b' ' ∷ join_with b' ' (v ∷ ws) ++ (b' ' ∷ rest)) field_separator ≡ false
unfolding starts_with
no_dash ws [] rest h = elim (h.0) [ ]
no_dash [] (c ∷ []) rest h =
    let other : c ≢ b'-' = λ e. h.1 (ap (λ x. x ∷ []) e) in ground (arith, other)
no_dash (u ∷ us) (c ∷ []) rest h =
    let other : c ≢ b'-' = λ e. h.1 (ap (λ x. x ∷ []) e) in ground (arith, other)
no_dash [] (c ∷ d ∷ v) rest h =
    let no_space : (d == 32) ≡ false = ground (arith, h.0.1.0) in ground (arith, no_space)
no_dash (u ∷ us) (c ∷ d ∷ v) rest h =
    let no_space : (d == 32) ≡ false = ground (arith, h.0.1.0) in ground (arith, no_space)

partition_here : (right : Bytes) → partition (field_separator ++ right) ≡ some ([], right)
unfolding partition starts_with
partition_here right = refl

pub partition-join_with :
    (ws : List Bytes) (right : Bytes)
    → All IsField ws
    → partition (join_with b' ' ws ++ (field_separator ++ right)) ≡ some (join_with b' ' ws, right)
partition-join_with [] right h = partition_here right
partition-join_with (w ∷ []) right h =
    partition_word w (field_separator ++ right) (word_plain w h.0.0)
    ∙ ap (behind w) (partition_here right)
    ∙ ap (λ l. some (l, right)) (append-nil w)
partition-join_with (w ∷ v ∷ ws) right h =
    let text = join_with b' ' (v ∷ ws) ++ (field_separator ++ right) in
    let step = partition_step b' ' text (no_dash ws v (b'-' ∷ b' ' ∷ right) h.1.0) in
    ap partition (append_assoc w (b' ' ∷ join_with b' ' (v ∷ ws)) (field_separator ++ right))
    ∙ partition_word w (b' ' ∷ text) (word_plain w h.0.0)
    ∙ ap (behind w) (step ∙ ap (behind (b' ' ∷ [])) (partition-join_with (v ∷ ws) right h.1))
