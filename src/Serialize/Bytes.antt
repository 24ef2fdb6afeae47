-- ===== src/Serialize/Bytes.antt =====
-- encoding/binary's big-endian numbers, and writes into a byte slice, as serialize.go uses them.
use graphvent.Prelude.{
  ℕ, zero, suc, ◌+◌, ◌-◌, ◌*◌, ◌/◌, ◌%◌, ◌^◌, ◌≤◌, ◌<◌, ◌≡◌, refl, ap, ◌∙◌, sym, true, List, [],
  ◌∷◌, ◌++◌, length, take, drop, leb, if◌then◌else◌, arith, length-append, length-drop,
}
use native.Mathlib.Nat.{pow-suc, mul_assoc}
use graphvent.Serialize.{Outcome, ok, panic, ◌>>=◌}

-- A call that is known to return, and what the rest makes of what it returned.
pub bind_ok :
    {A B : Type 0} {o : Outcome A} {a : A} (f : A → Outcome B) {r : Outcome B}
    → o ≡ ok a
    → f a ≡ r
    → (o >>= f) ≡ r
bind_ok f e h = ap (λ o. o >>= f) e ∙ h

-- A number in `w` bytes, the highest first.
unfoldable pub big_endian : ℕ → ℕ → List ℕ
big_endian zero n = []
big_endian (suc w) n = big_endian w (n / 256) ++ (n % 256) ∷ []

-- The number that bytes stand for, behind those read already.
unfoldable pub from_big_endian : ℕ → List ℕ → ℕ
from_big_endian acc [] = acc
from_big_endian acc (b ∷ bs) = from_big_endian (acc * 256 + b) bs

pub length-big_endian : (w n : ℕ) → length (big_endian w n) ≡ w
unfolding big_endian
length-big_endian zero n = refl
length-big_endian (suc w) n =
    omega (
      arith,
      length-append (big_endian w (n / 256)) ((n % 256) ∷ []),
      length-big_endian w (n / 256),
    )

from_big_endian-append :
    (acc : ℕ) (xs : List ℕ) (b : ℕ)
    → from_big_endian acc (xs ++ b ∷ []) ≡ from_big_endian acc xs * 256 + b
unfolding from_big_endian
from_big_endian-append acc [] b = refl
from_big_endian-append acc (x ∷ xs) b = from_big_endian-append (acc * 256 + x) xs b

sum_scaled : (a p n : ℕ) → (a * p + n / 256) * 256 + n % 256 ≡ a * (p * 256) + n
sum_scaled a p n = omega (arith, mul_assoc a p 256)

from_big_endian-big_endian :
    (w n acc : ℕ) → n < 256 ^ w → from_big_endian acc (big_endian w n) ≡ acc * 256 ^ w + n
unfolding big_endian from_big_endian
from_big_endian-big_endian zero n acc h = omega arith
from_big_endian-big_endian (suc w) n acc h =
    from_big_endian-append acc (big_endian w (n / 256)) (n % 256)
    ∙ ap (λ x. x * 256 + n % 256) (from_big_endian-big_endian w (n / 256) acc below)
    ∙ regroup
  where
    below : n / 256 < 256 ^ w
    below = omega (arith, pow-suc 256 w)

    regroup : (acc * 256 ^ w + n / 256) * 256 + n % 256 ≡ acc * 256 ^ suc w + n
    regroup = sum_scaled acc (256 ^ w) n ∙ ap (λ p. acc * p + n) (sym (pow-suc 256 w))

pub read-big_endian : (w n : ℕ) → n < 256 ^ w → from_big_endian 0 (big_endian w n) ≡ n
read-big_endian w n h = omega (arith, from_big_endian-big_endian w n 0 h)

-- `data` with the bytes `bs` from `off` on.
abbrev pub overwrite : ℕ → List ℕ → List ℕ → List ℕ
overwrite zero bs bytes = bs ++ drop (length bs) bytes
overwrite (suc off) bs [] = bs
overwrite (suc off) bs (b ∷ bytes) = b ∷ overwrite off bs bytes

-- `binary.BigEndian.PutUint64(data[off:], n)` and its kin: without room it is a panic.
abbrev pub put : ℕ → List ℕ → List ℕ → Outcome (List ℕ)
put off bs bytes =
    if leb (off + length bs) (length bytes) then ok (overwrite off bs bytes) else panic

-- `copy(data[off:], bs)`: what has no room is dropped; a start past the end is a panic.
abbrev pub copy_to : ℕ → List ℕ → List ℕ → Outcome (List ℕ)
copy_to off bs bytes =
    if leb off (length bytes)
    then ok (overwrite off (take (length bytes - off) bs) bytes)
    else panic

-- `f` on the rest `data[off:]` of the slice, in place.
abbrev pub within :
    {A : Type 0} → ℕ → (List ℕ → Outcome (List ℕ × A)) → List ℕ → Outcome (List ℕ × A)
within off f bytes =
    if leb off (length bytes)
    then (f (drop off bytes) >>= λ r. ok (take off bytes ++ r.0, r.1))
    else panic

pub length-overwrite :
    (off : ℕ) (bs bytes : List ℕ)
    → off + length bs ≤ length bytes
    → length (overwrite off bs bytes) ≡ length bytes
length-overwrite zero bs bytes h =
    omega (arith, length-append bs (drop (length bs) bytes), length-drop (length bs) bytes)
length-overwrite (suc off) bs [] h = ground arith
length-overwrite (suc off) bs (b ∷ bytes) h = ap suc (length-overwrite off bs bytes (omega arith))

overwrite_start :
    (xs ys bytes : List ℕ)
    → length xs ≤ length bytes
    → overwrite (length xs) ys (xs ++ drop (length xs) bytes) ≡ overwrite 0 (xs ++ ys) bytes
overwrite_start [] ys bytes h = refl
overwrite_start (x ∷ xs) ys [] h = ground arith
overwrite_start (x ∷ xs) ys (b ∷ bytes) h = ap (◌∷◌ x) (overwrite_start xs ys bytes (omega arith))

zero_sum : (n : ℕ) → 0 + n ≡ n
zero_sum n = omega arith

suc_sum : (m n : ℕ) → suc m + n ≡ suc (m + n)
suc_sum m n = omega arith

-- Writing one thing behind the other writes both.
pub overwrite-overwrite :
    (off : ℕ) (xs ys bytes : List ℕ)
    → off + length xs ≤ length bytes
    → overwrite (off + length xs) ys (overwrite off xs bytes) ≡ overwrite off (xs ++ ys) bytes
overwrite-overwrite zero xs ys bytes h =
    ap (λ n. overwrite n ys (xs ++ drop (length xs) bytes)) (zero_sum (length xs))
    ∙ overwrite_start xs ys bytes (omega arith)
overwrite-overwrite (suc off) xs ys [] h = ground arith
overwrite-overwrite (suc off) xs ys (b ∷ bytes) h =
    ap (λ n. overwrite n ys (b ∷ overwrite off xs bytes)) (suc_sum off (length xs))
    ∙ ap (◌∷◌ b) (overwrite-overwrite off xs ys bytes (omega arith))

take-overwrite-drop :
    (off : ℕ) (bs bytes : List ℕ)
    → off ≤ length bytes
    → take off bytes ++ overwrite 0 bs (drop off bytes) ≡ overwrite off bs bytes
take-overwrite-drop zero bs bytes h = refl
take-overwrite-drop (suc off) bs [] h = ground arith
take-overwrite-drop (suc off) bs (b ∷ bytes) h =
    ap (◌∷◌ b) (take-overwrite-drop off bs bytes (omega arith))

pub le→leb : (a b : ℕ) → a ≤ b → leb a b ≡ true
le→leb a b h = ground arith

-- What is written at the start of the rest is written at the offset.
pub within-overwrite :
    {A : Type 0} (off : ℕ) (f : List ℕ → Outcome (List ℕ × A)) (bs bytes : List ℕ) (a : A)
    → off ≤ length bytes
    → f (drop off bytes) ≡ ok (overwrite 0 bs (drop off bytes), a)
    → within off f bytes ≡ ok (overwrite off bs bytes, a)
within-overwrite off f bs bytes a h e =
    ap (λ t. if t then (f (drop off bytes) >>= λ r. ok (take off bytes ++ r.0, r.1)) else panic)
      (le→leb off (length bytes) h)
    ∙ ap (λ o. o >>= λ r. ok (take off bytes ++ r.0, r.1)) e
    ∙ ap (λ l. ok (l, a)) (take-overwrite-drop off bs bytes h)

pub put_fits :
    (off : ℕ) (bs bytes : List ℕ)
    → off + length bs ≤ length bytes
    → put off bs bytes ≡ ok (overwrite off bs bytes)
put_fits off bs bytes h =
    ap (λ t. if t then ok (overwrite off bs bytes) else panic)
      (le→leb (off + length bs) (length bytes) h)

take_all : (n : ℕ) (xs : List ℕ) → length xs ≤ n → take n xs ≡ xs
take_all zero [] h = refl
take_all zero (x ∷ xs) h = ground arith
take_all (suc n) [] h = refl
take_all (suc n) (x ∷ xs) h = ap (◌∷◌ x) (take_all n xs (omega arith))

pub copy_fits :
    (off : ℕ) (bs bytes : List ℕ)
    → off + length bs ≤ length bytes
    → copy_to off bs bytes ≡ ok (overwrite off bs bytes)
copy_fits off bs bytes h =
    ap (λ t. if t then ok (overwrite off (take (length bytes - off) bs) bytes) else panic)
      (le→leb off (length bytes) (omega arith))
    ∙ ap (λ xs. ok (overwrite off xs bytes)) (take_all (length bytes - off) bs (omega arith))

pub overwrite_nothing :
    (off : ℕ) (bytes : List ℕ) → off ≤ length bytes → overwrite off [] bytes ≡ bytes
overwrite_nothing zero bytes h = refl
overwrite_nothing (suc off) [] h = ground arith
overwrite_nothing (suc off) (b ∷ bytes) h = ap (◌∷◌ b) (overwrite_nothing off bytes (omega arith))
