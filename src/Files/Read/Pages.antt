-- ===== src/Files/Read/Pages.antt =====
-- What a file's windows hold, and that following them reads the whole file.
use dzzzr_cli.Base.{
  ℕ, zero, suc, ◌+◌, ◌-◌, ◌≤◌, ◌<◌, ◌≡◌, refl, sym, ap, ◌∙◌, inl, inr, true, false, List, [], ◌∷◌,
  ◌++◌, arith, ltb, leb, if◌then◌else◌, Text, length, Bool-cases,
}
use native.Mathlib.Numerals.{add-one}
use native.Mathlib.Nat.{zero-add, suc-add}
use dzzzr_cli.Files.Read.{take, drop, window}

module _ {ℓ} {A : Type ℓ} where
  take-drop : (n : ℕ) (xs : List A) → take n xs ++ drop n xs ≡ xs
  take-drop zero xs = refl
  take-drop (suc n) [] = refl
  take-drop (suc n) (x ∷ xs) = ap (λ r. x ∷ r) (take-drop n xs)

  take_all : (n : ℕ) (xs : List A) → length xs ≤ n → take n xs ≡ xs
  take_all zero [] h = refl
  take_all zero (x ∷ xs) h = absurd (omega arith)
  take_all (suc n) [] h = refl
  take_all (suc n) (x ∷ xs) h = ap (λ r. x ∷ r) (take_all n xs (omega arith))

  take-take : (n : ℕ) (xs : List A) → take n (take (n + 1) xs) ≡ take n xs
  take-take n xs = rw (add-one n) (go n xs)
    where
      go : (k : ℕ) (ys : List A) → take k (take (suc k) ys) ≡ take k ys
      go zero ys = refl
      go (suc k) [] = refl
      go (suc k) (y ∷ ys) = ap (λ r. y ∷ r) (go k ys)

  pub length-take :
      (n : ℕ) (xs : List A) → length (take n xs) ≡ (if leb n (length xs) then n else length xs)
  length-take zero xs = ground arith
  length-take (suc n) [] = ground arith
  length-take (suc n) (x ∷ xs) = ground (arith, length-take n xs)

  length-drop : (n : ℕ) (xs : List A) → length (drop n xs) ≡ length xs - n
  length-drop zero xs = omega arith
  length-drop (suc n) [] = omega arith
  length-drop (suc n) (x ∷ xs) = omega (arith, length-drop n xs)

  drop-nil : (n : ℕ) → drop {A = A} n [] ≡ []
  drop-nil zero = refl
  drop-nil (suc n) = refl

  drop-drop : (m n : ℕ) (xs : List A) → drop n (drop m xs) ≡ drop (m + n) xs
  drop-drop zero n xs = rw (zero-add n) refl
  drop-drop (suc m) n [] = rw (suc-add m n) (drop-nil n)
  drop-drop (suc m) n (x ∷ xs) = rw (suc-add m n) (drop-drop m n xs)

-- The windows of a file, each from where the one before ended, until one is not cut short.
unfoldable pub pages : ℕ → Text → ℕ → ℕ → Text
pages zero bytes limit offset = []
pages (suc fuel) bytes limit offset =
    let (content, more) = window bytes offset limit in
    let rest = pages fuel bytes limit (offset + length content) in
    if more then content ++ rest else content

window_more :
    (bytes : Text) (offset limit : ℕ)
    → limit < length (drop offset bytes)
    → window bytes offset limit ≡ (take limit (drop offset bytes), true)
unfolding window
window_more bytes offset limit h =
    let rest = drop offset bytes in
    let longer : ltb limit (length (take (limit + 1) rest)) ≡ true =
      rw (length-take (limit + 1) rest) (ground (arith, h)) in
    rw (longer, take-take limit rest) refl

window_last :
    (bytes : Text) (offset limit : ℕ)
    → length (drop offset bytes) ≤ limit
    → window bytes offset limit ≡ (drop offset bytes, false)
unfolding window
window_last bytes offset limit h =
    let rest = drop offset bytes in
    let whole : take (limit + 1) rest ≡ rest = take_all (limit + 1) rest (omega (arith, h)) in
    let fits : ltb limit (length rest) ≡ false = ground (arith, h) in rw (whole, fits) refl

length-take_less : (n : ℕ) (xs : Text) → n < length xs → length (take n xs) ≡ n
length-take_less n xs h = length-take n xs ∙ ground (arith, h)

-- Following the windows of a file, each from where the one before ended, gives the whole rest of the
-- file, whatever the limit of one window is, and as many windows as the rest has bytes, and one more,
-- are enough.
pub pages_lem :
    (fuel : ℕ) (bytes : Text) (limit offset : ℕ)
    → 0 < limit
    → length (drop offset bytes) < fuel
    → pages fuel bytes limit offset ≡ drop offset bytes
unfolding pages
pages_lem zero bytes limit offset h k = absurd (omega (arith, k))
pages_lem (suc fuel) bytes limit offset h k =
    let rest = drop offset bytes in
    elim (Bool-cases (ltb limit (length rest))) [
      | inl longer ↦
          let less : limit < length rest = ground (arith, longer) in
          let next = length-drop limit rest in
          rw (window_more bytes offset limit less, length-take_less limit rest less)
            (ap (λ r. take limit rest ++ r)
                (pages_lem fuel bytes limit (offset + limit) h
                    (rw (← drop-drop offset limit bytes) (omega (arith, next, k, h, less)))
                  ∙ sym (drop-drop offset limit bytes))
              ∙ take-drop limit rest)
      | inr last ↦ rw (window_last bytes offset limit (ground (arith, last))) refl
    ]
