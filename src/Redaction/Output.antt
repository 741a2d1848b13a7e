-- ===== src/Redaction/Output.antt =====
-- What `redact` writes (crates/anne-de-breuil/src/domain/redaction.rs).
use anne_de_breuil.Prelude.{
  ℕ, zero, suc, ◌+◌, ◌-◌, ◌≤◌, ◌<◌, ◌≡◌, refl, sym, ap, ◌∙◌, Bool, false, ◌&&◌, Option, List, [],
  ◌∷◌, ◌++◌, arith, ltb, leb, ◌==◌, if◌then◌else◌, length, take, drop, any,
}
use anne_de_breuil.Redaction.{
  Claim, FindIter, claims, redact, secret_patterns, slice_or_empty, write_out, replacement,
}
use anne_de_breuil.Redaction.Claims.{Chain, Matches, claims-Chain}
use anne_de_breuil.Bytes.Slices.{take_all}
use anne_de_breuil.Bytes.{Bytes, slice}
use anne_de_breuil.Text.{Text}
use anne_de_breuil.Prelude.{append-nil, length-drop}

-- A position that some claim covers, and what stands there in its place: the replacement where a
-- claim starts, nothing elsewhere.
abbrev pub covers : ℕ → Claim → Bool
covers i c = leb c.start i && ltb i c.end

abbrev pub in_place_of : ℕ → List Claim → Bytes
in_place_of i [] = []
in_place_of i (c ∷ l) =
    let rest = in_place_of i l in if i == c.start then replacement c.category ++ rest else rest

-- The input from position `i` on, byte by byte.
unfoldable pub rewritten : List Claim → ℕ → Bytes → Bytes
rewritten cl i [] = []
rewritten cl i (b ∷ s) =
    let rest = rewritten cl (suc i) s in
    if any (covers i) cl then in_place_of i cl ++ rest else b ∷ rest

-- Claims behind a position do not touch it.
Chain-ahead :
    (i lo hi : ℕ) (cl : List Claim)
    → Chain lo hi cl
    → i < lo
    → (any (covers i) cl ≡ false) × (in_place_of i cl ≡ [])
Chain-ahead i lo hi [] h k = (refl, refl)
Chain-ahead i lo hi (c ∷ cl) h k =
    let r = Chain-ahead i c.end hi cl h.3 (omega (arith, h.0, h.1)) in
    (ground (arith, r, h.0, h.1), ground (arith, r, h.0, h.1))

rewritten_none : (i : ℕ) (s : Bytes) → rewritten [] i s ≡ s
unfolding rewritten
rewritten_none i [] = refl
rewritten_none i (b ∷ s) = rw (rewritten_none (suc i) s)

-- Up to the first claim the bytes stay.
rewritten-gap :
    (cl : List Claim) (c : Claim) (hi n i m : ℕ) (s : Bytes)
    → Chain c.end hi cl
    → c.start < c.end
    → i + n ≡ m
    → m ≤ c.start
    → n ≤ length s
    → rewritten (c ∷ cl) i s ≡ (take n s ++ rewritten (c ∷ cl) m (drop n s))
unfolding rewritten
rewritten-gap cl c hi zero i m s h k e a b =
    let q : i ≡ m = omega arith in ap (λ z. rewritten (c ∷ cl) z s) q
rewritten-gap cl c hi (suc n) i m [] h k e a b = ground arith
rewritten-gap cl c hi (suc n) i m (x ∷ s) h k e a b =
    let r = Chain-ahead i c.end hi cl h (omega arith) in
    ground (arith, r, rewritten-gap cl c hi n (suc i) m s h k)

-- Inside the first claim, behind its start, nothing is written.
rewritten-inside :
    (cl : List Claim) (c : Claim) (hi n i : ℕ) (s : Bytes)
    → Chain c.end hi cl
    → c.start < i
    → i + n ≡ c.end
    → n ≤ length s
    → rewritten (c ∷ cl) i s ≡ rewritten (c ∷ cl) c.end (drop n s)
unfolding rewritten
rewritten-inside cl c hi zero i s h k a b =
    let q : i ≡ c.end = omega arith in ap (λ z. rewritten (c ∷ cl) z s) q
rewritten-inside cl c hi (suc n) i [] h k a b = ground arith
rewritten-inside cl c hi (suc n) i (x ∷ s) h k a b =
    let r = Chain-ahead i c.end hi cl h (omega arith) in
    ground (arith, r, rewritten-inside cl c hi n (suc i) s h)

-- At the start of the first claim its replacement is written for all of it.
rewritten-at :
    (cl : List Claim) (c : Claim) (hi n : ℕ) (s : Bytes)
    → Chain c.end hi cl
    → c.start < c.end
    → c.start + n ≡ c.end
    → n ≤ length s
    → rewritten (c ∷ cl) c.start s ≡ (replacement c.category ++ rewritten (c ∷ cl) c.end (drop n s))
unfolding rewritten
rewritten-at cl c hi zero s h k a b = ground arith
rewritten-at cl c hi (suc n) [] h k a b = ground arith
rewritten-at cl c hi (suc n) (x ∷ s) h k a b =
    let r = Chain-ahead c.start c.end hi cl h k in
    ground
      (arith, r, append-nil (replacement c.category), rewritten-inside cl c hi n (suc c.start) s h)

-- Behind the first claim it does not matter any more.
rewritten-behind :
    (cl : List Claim) (c : Claim) (i : ℕ) (s : Bytes)
    → c.start < c.end
    → c.end ≤ i
    → rewritten (c ∷ cl) i s ≡ rewritten cl i s
unfolding rewritten
rewritten-behind cl c i [] h k = refl
rewritten-behind cl c i (x ∷ s) h k = ground (arith, rewritten-behind cl c (suc i) s)

drop-drop : (n m k : ℕ) (s : Bytes) → n + m ≡ k → drop m (drop n s) ≡ drop k s
drop-drop zero m k s e = let q : m ≡ k = omega arith in ap (λ z. drop z s) q
drop-drop (suc n) zero (suc k) [] e = refl
drop-drop (suc n) (suc m) (suc k) [] e = refl
drop-drop (suc n) m (suc k) (x ∷ s) e = drop-drop n m k s (omega arith)
drop-drop (suc n) m zero s e = absurd (omega (arith, e))

slice_or_empty_lem :
    (input : Bytes) (a n b : ℕ)
    → a + n ≡ b
    → b ≤ length input
    → slice_or_empty input a b ≡ take n (drop a input)
unfolding slice_or_empty slice
slice_or_empty_lem input a n b e h = let q : b - a ≡ n = omega arith in ground (arith, q)

-- From the cursor on, the loop writes what stands for each byte.
write_out-rewritten :
    (input : Bytes) (cursor : ℕ) (cl : List Claim)
    → cursor ≤ length input
    → Chain cursor (length input) cl
    → write_out input cursor cl ≡ rewritten cl cursor (drop cursor input)
unfolding write_out
write_out-rewritten input cursor [] h k =
    let n = length input - cursor in
    let p = slice_or_empty_lem input cursor n (length input) (omega arith) (omega arith) in
    let q : n ≡ length (drop cursor input) = omega (arith, length-drop cursor input) in
    p
    ∙ (ap (λ z. take z (drop cursor input)) q
        ∙ (take_all (drop cursor input) ∙ sym (rewritten_none cursor (drop cursor input))))
write_out-rewritten input cursor (c ∷ cl) h k =
    let n = c.start - cursor in
    let m = c.end - c.start in
    let s = drop cursor input in
    let size = length-drop cursor input in
    let p =
      slice_or_empty_lem input cursor n c.start (omega (arith, k.0)) (omega (arith, k.1, k.2)) in
    let gap =
      rewritten-gap cl c (length input) n cursor c.start s k.3 k.1 (omega (arith, k.0))
        (omega arith) (omega (arith, k.1, k.2, size)) in
    let at =
      rewritten-at cl c (length input) m (drop n s) k.3 k.1 (omega (arith, k.1))
        (omega (arith, k.0, k.1, k.2, size, length-drop n s)) in
    let behind = rewritten-behind cl c c.end (drop m (drop n s)) k.1 (omega arith) in
    let rest =
      drop-drop n m (c.end - cursor) s (omega (arith, k.0, k.1))
      ∙ drop-drop cursor (c.end - cursor) c.end input (omega (arith, k.0, k.1)) in
    let next = write_out-rewritten input c.end cl k.2 k.3 in
    let tail =
      at
      ∙ ap (λ z. replacement c.category ++ z)
          (behind ∙ (ap (rewritten cl c.end) rest ∙ sym next)) in
    ap (λ z. z ++ (replacement c.category ++ write_out input c.end cl)) p
    ∙ sym (gap ∙ ap (λ z. take n s ++ z) tail)

-- If every match of the patterns is a span of the input that is not empty, the output of `redact`
-- stands byte by byte for the input: a byte that no claim covers stays, the first byte of a claim
-- becomes its replacement, and the others of a claim are left out.
pub redact-rewritten :
    (compile : Text → Option FindIter) (input : Bytes)
    → Matches input (secret_patterns compile)
    → (redact compile input).0 ≡ rewritten (claims (secret_patterns compile) input) 0 input
unfolding redact
redact-rewritten compile input h =
    write_out-rewritten input 0 (claims (secret_patterns compile) input) (omega arith)
      (claims-Chain (secret_patterns compile) input h)
