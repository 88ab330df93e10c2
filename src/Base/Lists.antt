-- ===== src/Base/Lists.antt =====
-- Lists as C arrays, measured and indexed by native numbers.
use Prim.Native.Nat.{ℕ, zero, suc, ◌+◌, ◌-◌, ◌≤◌, ◌<◌, min}
use mathlib.Core.Path.{◌≡◌, refl, ap, ap₂, ◌∙◌, sym}
use mathlib.Core.Bool.{Bool, true, false, ◌&&◌}
use mathlib.Core.Logic.{◌↔◌}
use mathlib.Core.List.{List, [], ◌∷◌, ◌++◌, append_assoc}
use native.Mathlib.Omega.{arith}
use demo_testbench.Base.Tests.{ltb, leb, if◌then◌else◌, ◌==◌}

module _ {ℓ} {A : Type ℓ} where
  abbrev pub length : List A → ℕ
  length [] = 0
  length (x ∷ xs) = suc (length xs)

  abbrev pub get_or : List A → ℕ → A → A
  get_or [] i d = d
  get_or (x ∷ xs) zero d = x
  get_or (x ∷ xs) (suc i) d = get_or xs i d

  abbrev pub take : ℕ → List A → List A
  take zero xs = []
  take (suc n) [] = []
  take (suc n) (x ∷ xs) = x ∷ take n xs

  abbrev pub drop : ℕ → List A → List A
  drop zero xs = xs
  drop (suc n) [] = []
  drop (suc n) (x ∷ xs) = drop n xs

  -- `tabulate n f` is `f 0 ∷ f 1 ∷ … ∷ f (n - 1)`.
  abbrev pub tabulate : ℕ → (ℕ → A) → List A
  tabulate zero f = []
  tabulate (suc n) f = f 0 ∷ tabulate n (λ i. f (suc i))

  -- `splice dst off src` is `dst` with `src` written over it from index `off` on, and cut off at
  -- the end of `dst`.
  abbrev pub splice : List A → ℕ → List A → List A
  splice [] off src = []
  splice (x ∷ xs) (suc off) src = x ∷ splice xs off src
  splice (x ∷ xs) zero [] = x ∷ xs
  splice (x ∷ xs) zero (y ∷ src) = y ∷ splice xs zero src

  pub length-append : (xs ys : List A) → length (xs ++ ys) ≡ length xs + length ys
  length-append [] ys = omega arith
  length-append (x ∷ xs) ys = omega (arith, length-append xs ys)

  pub length-take : (n : ℕ) (xs : List A) → length (take n xs) ≡ min n (length xs)
  length-take zero xs = omega arith
  length-take (suc n) [] = omega arith
  length-take (suc n) (x ∷ xs) = omega (arith, length-take n xs)

  pub length-drop : (n : ℕ) (xs : List A) → length (drop n xs) ≡ length xs - n
  length-drop zero xs = omega arith
  length-drop (suc n) [] = omega arith
  length-drop (suc n) (x ∷ xs) = omega (arith, length-drop n xs)

  pub take-append-drop : (n : ℕ) (xs : List A) → take n xs ++ drop n xs ≡ xs
  take-append-drop zero xs = refl
  take-append-drop (suc n) [] = refl
  take-append-drop (suc n) (x ∷ xs) = ap (λ t. x ∷ t) (take-append-drop n xs)

  pub take_all : (n : ℕ) (xs : List A) → length xs ≤ n → take n xs ≡ xs
  take_all zero [] h = refl
  take_all zero (x ∷ xs) h = absurd (omega arith)
  take_all (suc n) [] h = refl
  take_all (suc n) (x ∷ xs) h = ap (λ t. x ∷ t) (take_all n xs (omega arith))

  pub length-tabulate : (n : ℕ) (f : ℕ → A) → length (tabulate n f) ≡ n
  length-tabulate zero f = refl
  length-tabulate (suc n) f = ap suc (length-tabulate n (λ i. f (suc i)))

  pub length-splice :
      (xs : List A) (off : ℕ) (src : List A) → length (splice xs off src) ≡ length xs
  length-splice [] off src = refl
  length-splice (x ∷ xs) (suc off) src = ap suc (length-splice xs off src)
  length-splice (x ∷ xs) zero [] = refl
  length-splice (x ∷ xs) zero (y ∷ src) = ap suc (length-splice xs zero src)

  pub get_or-append :
      (xs ys : List A) (i : ℕ) (d : A)
      → get_or (xs ++ ys) i d
        ≡ (if ltb i (length xs) then get_or xs i d else get_or ys (i - length xs) d)
  get_or-append [] ys i d = ground arith
  get_or-append (x ∷ xs) ys zero d = ground arith
  get_or-append (x ∷ xs) ys (suc i) d = ground (arith, get_or-append xs ys i d)

  pub get_or-take :
      (n : ℕ) (xs : List A) (i : ℕ) (d : A)
      → get_or (take n xs) i d ≡ (if ltb i n then get_or xs i d else d)
  get_or-take zero xs i d = ground arith
  get_or-take (suc n) [] i d = ground arith
  get_or-take (suc n) (x ∷ xs) zero d = ground arith
  get_or-take (suc n) (x ∷ xs) (suc i) d = ground (arith, get_or-take n xs i d)

  pub get_or-drop :
      (n : ℕ) (xs : List A) (i : ℕ) (d : A) → get_or (drop n xs) i d ≡ get_or xs (n + i) d
  get_or-drop zero xs i d = ground arith
  get_or-drop (suc n) [] i d = refl
  get_or-drop (suc n) (x ∷ xs) i d = ground (arith, get_or-drop n xs i d)

  pub get_or-tabulate :
      (n : ℕ) (f : ℕ → A) (i : ℕ) (d : A) → i < n → get_or (tabulate n f) i d ≡ f i
  get_or-tabulate zero f i d h = absurd (omega arith)
  get_or-tabulate (suc n) f zero d h = refl
  get_or-tabulate (suc n) f (suc i) d h = get_or-tabulate n (λ j. f (suc j)) i d (omega arith)

  -- Two arrays of one length are equal if they agree at every index below it.
  pub get_or_ext :
      (d : A) (xs ys : List A)
      → length xs ≡ length ys
      → ((i : ℕ) → i < length xs → get_or xs i d ≡ get_or ys i d)
      → xs ≡ ys
  get_or_ext d [] [] e h = refl
  get_or_ext d [] (y ∷ ys) e h = absurd (omega arith)
  get_or_ext d (x ∷ xs) [] e h = absurd (omega arith)
  get_or_ext d (x ∷ xs) (y ∷ ys) e h =
      ap₂ ◌∷◌ (h 0 (omega arith))
        (get_or_ext d xs ys (omega arith) (λ i p. h (suc i) (omega arith)))

module _ {A : Type 0} where
  pub splice-front :
      (xs src : List A) → length src ≤ length xs → splice xs 0 src ≡ src ++ drop (length src) xs
  splice-front [] [] h = refl
  splice-front [] (y ∷ src) h = absurd (omega arith)
  splice-front (x ∷ xs) [] h = refl
  splice-front (x ∷ xs) (y ∷ src) h = ap (λ t. y ∷ t) (splice-front xs src (omega arith))

  -- Writing over the middle of a list.
  pub splice-concat :
      (xs : List A) (off : ℕ) (src : List A)
      → off + length src ≤ length xs
      → splice xs off src ≡ take off xs ++ (src ++ drop (off + length src) xs)
  splice-concat [] zero [] h = refl
  splice-concat [] zero (y ∷ src) h = absurd (omega arith)
  splice-concat [] (suc off) src h = absurd (omega arith)
  splice-concat (x ∷ xs) (suc off) src h =
      let next : suc off + length src ≡ suc (off + length src) = omega arith in
      rw next (ap (λ t. x ∷ t) (splice-concat xs off src (omega arith)))
  splice-concat (x ∷ xs) zero src h =
      splice-front (x ∷ xs) src (omega arith) ∙ ap (λ k. src ++ drop k (x ∷ xs)) (omega arith)

  pub get_or-splice :
      (xs : List A) (off : ℕ) (src : List A) (i : ℕ) (d : A)
      → off + length src ≤ length xs
      → get_or (splice xs off src) i d
        ≡ (if leb off i && ltb i (off + length src) then get_or src (i - off) d else get_or xs i d)
  get_or-splice [] off [] i d h = ground arith
  get_or-splice [] off (y ∷ src) i d h = absurd (omega arith)
  get_or-splice (x ∷ xs) (suc off) src zero d h = ground arith
  get_or-splice (x ∷ xs) (suc off) src (suc i) d h = ground (arith, get_or-splice xs off src i d)
  get_or-splice (x ∷ xs) zero [] i d h = ground arith
  get_or-splice (x ∷ xs) zero (y ∷ src) zero d h = ground arith
  get_or-splice (x ∷ xs) zero (y ∷ src) (suc i) d h = ground (arith, get_or-splice xs zero src i d)

module _ {ℓ} {A : Type ℓ} where
  pub take-add : (n m : ℕ) (xs : List A) → take (n + m) xs ≡ take n xs ++ take m (drop n xs)
  take-add zero m xs = ap (λ k. take k xs) (omega arith)
  take-add (suc n) m [] = go m (suc n + m)
    where
      go : (m k : ℕ) → take {A = A} k [] ≡ take {A = A} m []
      go zero zero = refl
      go zero (suc k) = refl
      go (suc m) zero = refl
      go (suc m) (suc k) = refl
  take-add (suc n) m (x ∷ xs) =
      let next : suc n + m ≡ suc (n + m) = omega arith in
      rw next (ap (λ t. x ∷ t) (take-add n m xs))

  pub drop-add : (n m : ℕ) (xs : List A) → drop (n + m) xs ≡ drop m (drop n xs)
  drop-add zero m xs = ap (λ k. drop k xs) (omega arith)
  drop-add (suc n) m [] = go m (suc n + m)
    where
      go : (m k : ℕ) → drop {A = A} k [] ≡ drop {A = A} m []
      go zero zero = refl
      go zero (suc k) = refl
      go (suc m) zero = refl
      go (suc m) (suc k) = refl
  drop-add (suc n) m (x ∷ xs) =
      let next : suc n + m ≡ suc (n + m) = omega arith in rw next (drop-add n m xs)

-- `strcmp(a, b) == 0`
unfoldable pub texts_eq : List ℕ → List ℕ → Bool
texts_eq [] [] = true
texts_eq (x ∷ xs) (y ∷ ys) = (x == y) && texts_eq xs ys
texts_eq _ _ = false

pub texts_eq_iff : (xs ys : List ℕ) → (texts_eq xs ys ≡ true) ↔ (xs ≡ ys)
unfolding texts_eq
texts_eq_iff [] [] = (λ e. refl, λ e. refl)
texts_eq_iff [] (y ∷ ys) = (λ e. cc, λ e. cc)
texts_eq_iff (x ∷ xs) [] = (λ e. cc, λ e. cc)
texts_eq_iff (x ∷ xs) (y ∷ ys) = ground (arith, texts_eq_iff xs ys)

-- Taking and dropping in two pieces.
pub take_split :
    (j left : ℕ) (xs got : List ℕ)
    → j ≤ left
    → (got ++ take j xs) ++ take (left - j) (drop j xs) ≡ got ++ take left xs
take_split j left xs got h =
    append_assoc got (take j xs) (take (left - j) (drop j xs))
    ∙ ap (λ t. got ++ t) (sym (take-add j (left - j) xs) ∙ ap (λ k. take k xs) (omega arith))

pub drop_split : (j left : ℕ) (xs : List ℕ) → j ≤ left → drop (left - j) (drop j xs) ≡ drop left xs
drop_split j left xs h = sym (drop-add j (left - j) xs) ∙ ap (λ k. drop k xs) (omega arith)

pub take_front : (xs ys : List ℕ) (n : ℕ) → length xs ≡ n → take n (xs ++ ys) ≡ xs
take_front [] ys zero e = refl
take_front [] ys (suc n) e = absurd (omega arith)
take_front (x ∷ xs) ys zero e = absurd (omega arith)
take_front (x ∷ xs) ys (suc n) e = ap (λ t. x ∷ t) (take_front xs ys n (omega arith))

pub take_less : (k n : ℕ) (xs : List ℕ) → k ≤ n → take k (take n xs) ≡ take k xs
take_less zero n xs h = refl
take_less (suc k) zero xs h = absurd (omega arith)
take_less (suc k) (suc n) [] h = refl
take_less (suc k) (suc n) (x ∷ xs) h = ap (λ t. x ∷ t) (take_less k n xs (omega arith))

pub drop_front : (xs ys : List ℕ) (n : ℕ) → length xs ≡ n → drop n (xs ++ ys) ≡ ys
drop_front [] ys zero e = refl
drop_front [] ys (suc n) e = absurd (omega arith)
drop_front (x ∷ xs) ys zero e = absurd (omega arith)
drop_front (x ∷ xs) ys (suc n) e = drop_front xs ys n (omega arith)

pub drop_left : (n : ℕ) (xs ys : List ℕ) → n ≤ length xs → drop n (xs ++ ys) ≡ drop n xs ++ ys
drop_left zero xs ys h = refl
drop_left (suc n) [] ys h = absurd (omega arith)
drop_left (suc n) (x ∷ xs) ys h = drop_left n xs ys (omega arith)

pub take_left : (n : ℕ) (xs ys : List ℕ) → n ≤ length xs → take n (xs ++ ys) ≡ take n xs
take_left zero xs ys h = refl
take_left (suc n) [] ys h = absurd (omega arith)
take_left (suc n) (x ∷ xs) ys h = ap (λ t. x ∷ t) (take_left n xs ys (omega arith))

take_nil : (n : ℕ) → ◌≡◌ {A = List ℕ} (take n []) []
take_nil zero = refl
take_nil (suc n) = refl

pub take-drop : (n m : ℕ) (xs : List ℕ) → take n (drop m xs) ≡ drop m (take (m + n) xs)
take-drop n zero xs = ap (λ k. take k xs) (omega arith)
take-drop n (suc m) [] = take_nil n ∙ sym (ap (λ l. drop (suc m) l) (take_nil (suc m + n)))
take-drop n (suc m) (x ∷ xs) =
    let next : suc m + n ≡ suc (m + n) = omega arith in rw next (take-drop n m xs)
