-- ===== src/Common/Text/Words.antt =====
-- Words, texts with no space in them: joined by spaces they are the fields of what comes out, and
-- there is nothing to trim.
use Prim.Native.Nat.{ℕ}
use mathlib.Core.Path.{◌≡◌, refl, ap, ◌∙◌}
use mathlib.Core.Logic.{inl, inr}
use mathlib.Core.Bool.{true, false}
use mathlib.Core.List.{List, [], ◌∷◌, ◌++◌}
use native.Mathlib.Omega.{arith}
use jobsd.Common.Tests.{Bool-cases}
use jobsd.Common.Lists.{All}
use jobsd.Common.Text.{
  Runes, runes, is_space, is_empty, trim_left, trim_right, trim_space, goes_on, push_front, fields,
  join, lower, to_lower, text_eq,
}

abbrev pub HasNoSpace : Runes → Type 0
HasNoSpace = All (λ c. is_space c ≡ false)

abbrev pub IsWord : Runes → Type 0
IsWord [] = ⊥
IsWord (c ∷ s) = (is_space c ≡ false) × HasNoSpace s

HasNoSpace-of_IsWord : (w : Runes) → IsWord w → HasNoSpace w
HasNoSpace-of_IsWord [] h = absurd h
HasNoSpace-of_IsWord (c ∷ s) h = h

push_front-words :
    (c : ℕ) (ws : List Runes) → is_space c ≡ false → All IsWord ws → All IsWord (push_front c ws)
push_front-words c [] e h = ((e, tt), tt)
push_front-words c (w ∷ ws) e h = ((e, HasNoSpace-of_IsWord w h.0), h.1)

pub fields-words : (s : Runes) → All IsWord (fields s)
unfolding fields
fields-words [] = tt
fields-words (c ∷ s) = elim (Bool-cases (is_space c)) [
  | inl e ↦ rw e (fields-words s)
  | inr e ↦ elim (Bool-cases (goes_on s)) [
    | inl g ↦ rw (e, g) (push_front-words c (fields s) e (fields-words s))
    | inr g ↦ rw (e, g) ((e, tt), fields-words s)
  ]
]

fields_step :
    (c d : ℕ) (s : Runes)
    → is_space c ≡ false
    → is_space d ≡ false
    → fields (c ∷ d ∷ s) ≡ push_front c (fields (d ∷ s))
unfolding fields
fields_step c d s h k = rw (h, k)

pub fields_word : (w : Runes) → IsWord w → fields w ≡ w ∷ []
fields_word [] h = absurd h
fields_word (c ∷ []) h = unfold fields in rw h.0
fields_word (c ∷ d ∷ s) h = rw (fields_step c d s h.0 h.1.0, fields_word (d ∷ s) h.1)

pub fields_word_space : (w t : Runes) → IsWord w → fields (w ++ 32 ∷ t) ≡ w ∷ fields t
fields_word_space [] t h = absurd h
fields_word_space (c ∷ []) t h = unfold fields is_space in rw h.0
fields_word_space (c ∷ d ∷ s) t h =
    rw (fields_step c d (s ++ 32 ∷ t) h.0 h.1.0, fields_word_space (d ∷ s) t h.1)

pub fields-join : (ws : List Runes) → All IsWord ws → fields (join (runes " ") ws) ≡ ws
unfolding join
fields-join [] h = unfold fields in refl
fields-join (w ∷ []) h = fields_word w h.0
fields-join (w ∷ v ∷ ws) h =
    fields_word_space w (join (runes " ") (v ∷ ws)) h.0 ∙ ap (◌∷◌ w) (fields-join (v ∷ ws) h.1)

-- A text that trimming on the right leaves as it is, and that is not empty.
abbrev EndsWell : Runes → Type 0
EndsWell s = (trim_right s ≡ s) × (is_empty s ≡ false)

EndsWell-cons : (c : ℕ) (s : Runes) → EndsWell s → EndsWell (c ∷ s)
unfolding trim_right
EndsWell-cons c s h = (ground (arith, h.0, h.1), refl)

EndsWell-append : (s t : Runes) → EndsWell t → EndsWell (s ++ t)
EndsWell-append [] t h = h
EndsWell-append (c ∷ s) t h = EndsWell-cons c (s ++ t) (EndsWell-append s t h)

EndsWell-word : (w : Runes) → IsWord w → EndsWell w
EndsWell-word [] h = absurd h
EndsWell-word (c ∷ []) h = (unfold trim_right in rw h.0, refl)
EndsWell-word (c ∷ d ∷ s) h = EndsWell-cons c (d ∷ s) (EndsWell-word (d ∷ s) h.1)

EndsWell-join :
    (w : Runes) (ws : List Runes) → IsWord w → All IsWord ws → EndsWell (join (runes " ") (w ∷ ws))
unfolding join
EndsWell-join w [] h k = EndsWell-word w h
EndsWell-join w (v ∷ ws) h k =
    EndsWell-append w (32 ∷ join (runes " ") (v ∷ ws))
      (EndsWell-cons 32 (join (runes " ") (v ∷ ws)) (EndsWell-join v ws k.0 k.1))

trim_left_word : (w t : Runes) → IsWord w → trim_left (w ++ t) ≡ w ++ t
unfolding trim_left
trim_left_word [] t h = absurd h
trim_left_word (c ∷ w) t h = rw h.0

trim_left-join :
    (w : Runes) (ws : List Runes)
    → IsWord w
    → trim_left (join (runes " ") (w ∷ ws)) ≡ join (runes " ") (w ∷ ws)
unfolding join trim_left
trim_left-join [] ws h = absurd h
trim_left-join (c ∷ w) [] h = rw h.0
trim_left-join (c ∷ w) (v ∷ ws) h = rw h.0

pub trim_space-join :
    (w : Runes) (ws : List Runes)
    → IsWord w
    → All IsWord ws
    → (trim_space (join (runes " ") (w ∷ ws)) ≡ join (runes " ") (w ∷ ws))
      × (is_empty (join (runes " ") (w ∷ ws)) ≡ false)
unfolding trim_space
trim_space-join w ws h k = let e = EndsWell-join w ws h k in (rw e.0 (trim_left-join w ws h), e.1)

lower-is_space : (c : ℕ) → is_space c ≡ false → is_space (lower c) ≡ false
unfolding is_space lower
lower-is_space c h = ground arith

to_lower-HasNoSpace : (s : Runes) → HasNoSpace s → HasNoSpace (to_lower s)
unfolding to_lower
to_lower-HasNoSpace [] h = tt
to_lower-HasNoSpace (c ∷ s) h = (lower-is_space c h.0, to_lower-HasNoSpace s h.1)

pub to_lower-IsWord : (w : Runes) → IsWord w → IsWord (to_lower w)
to_lower-IsWord [] h = absurd h
to_lower-IsWord (c ∷ s) h = unfold to_lower in (lower-is_space c h.0, to_lower-HasNoSpace s h.1)

pub text_eq_sound : (s t : Runes) → text_eq s t ≡ true → s ≡ t
unfolding text_eq
text_eq_sound [] [] h = refl
text_eq_sound [] (d ∷ t) h = cc
text_eq_sound (c ∷ s) [] h = cc
text_eq_sound (c ∷ s) (d ∷ t) h = ground (arith, text_eq_sound s t)
