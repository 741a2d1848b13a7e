-- ===== src/Text/Trim.antt =====
-- What `trim` keeps.
use anne_de_breuil.Prelude.{◌++◌, ◌≢◌, ℕ, ◌≡◌, refl, ap, ◌∙◌, Bool, false, [], ◌∷◌, arith, any}
use anne_de_breuil.Text.{Text, is_whitespace, trim_start, trim_end_onto, trim_end, trim}

-- A test that holds of no character of a text holds of none after `trim`.
any-trim_start : (p : ℕ → Bool) (s : Text) → any p s ≡ false → any p (trim_start s) ≡ false
unfolding trim_start
any-trim_start p [] h = refl
any-trim_start p (c ∷ s) h = ground (arith, any-trim_start p s)

any-trim_end_onto :
    (p : ℕ → Bool) (c : ℕ) (s : Text)
    → p c ≡ false
    → any p s ≡ false
    → any p (trim_end_onto c s) ≡ false
unfolding trim_end_onto
any-trim_end_onto p c [] h k = ground arith
any-trim_end_onto p c (d ∷ s) h k = ground arith

any-trim_end : (p : ℕ → Bool) (s : Text) → any p s ≡ false → any p (trim_end s) ≡ false
unfolding trim_end
any-trim_end p [] h = refl
any-trim_end p (c ∷ s) h =
    any-trim_end_onto p c (trim_end s) (ground arith) (any-trim_end p s (ground arith))

pub any-trim : (p : ℕ → Bool) (s : Text) → any p s ≡ false → any p (trim s) ≡ false
unfolding trim
any-trim p s h = any-trim_end p (trim_start s) (any-trim_start p s h)

trim_start_idem : (s : Text) → trim_start (trim_start s) ≡ trim_start s
unfolding trim_start
trim_start_idem [] = refl
trim_start_idem (c ∷ s) = ground (arith, trim_start_idem s)

-- A text with no white space is left alone.
trim_start_solid : (s : Text) → any is_whitespace s ≡ false → trim_start s ≡ s
unfolding trim_start
trim_start_solid [] h = refl
trim_start_solid (c ∷ s) h = ground arith

trim_end_onto_solid : (c : ℕ) (s : Text) → is_whitespace c ≡ false → trim_end_onto c s ≡ c ∷ s
unfolding trim_end_onto
trim_end_onto_solid c [] h = ground arith
trim_end_onto_solid c (d ∷ s) h = refl

pub trim_end_solid : (s : Text) → any is_whitespace s ≡ false → trim_end s ≡ s
unfolding trim_end
trim_end_solid [] h = refl
trim_end_solid (c ∷ s) h =
    ap (trim_end_onto c) (trim_end_solid s (ground arith)) ∙ trim_end_onto_solid c s (ground arith)

pub trim_solid : (s : Text) → any is_whitespace s ≡ false → trim s ≡ s
unfolding trim
trim_solid s h = ap trim_end (trim_start_solid s h) ∙ trim_end_solid s h

-- Leading blanks do not matter.
pub trim-blank : (s : Text) → trim (b' ' ∷ s) ≡ trim s
unfolding trim trim_start is_whitespace
trim-blank s = refl

trim_end_cons : (c : ℕ) (s : Text) → trim_end s ≡ s → s ≢ [] → trim_end (c ∷ s) ≡ c ∷ s
unfolding trim_end trim_end_onto
trim_end_cons c [] h ne = absurd (ne refl)
trim_end_cons c (d ∷ s) h ne = ground arith

-- What ends in a kept text is kept at its end.
pub trim_end-append : (s t : Text) → trim_end t ≡ t → t ≢ [] → trim_end (s ++ t) ≡ s ++ t
trim_end-append [] t h ne = h
trim_end-append (c ∷ []) t h ne = trim_end_cons c t h ne
trim_end-append (c ∷ d ∷ s) t h ne =
    trim_end_cons c (d ∷ (s ++ t)) (trim_end-append (d ∷ s) t h ne) (λ e. cc)

-- A text that begins with a solid character and that `trim_end` keeps is kept whole.
pub trim-cons :
    (c : ℕ) (s : Text) → is_whitespace c ≡ false → trim_end (c ∷ s) ≡ c ∷ s → trim (c ∷ s) ≡ c ∷ s
unfolding trim trim_start
trim-cons c s h e = rw (h, trim_start) e
