-- ===== src/Database/Staging.antt =====
-- The buffer and the entries of a transaction, as the values are written one behind the other.
use graphvent.Prelude.{
  ℕ, zero, suc, ◌+◌, ◌≤◌, ◌≡◌, refl, sym, ap, ap₂, ◌∙◌, List, [], ◌∷◌, ◌++◌, length, take, drop,
  All, All-append, All-mono, append_assoc, append-nil, take-length-append, arith,
}
use graphvent.Serialize.Bytes.{overwrite, length-overwrite}
use graphvent.Database.{Pending, Tx, contents, resolve}

abbrev pub KeyBytes : Type 0
KeyBytes = List ℕ × List ℕ

abbrev pub total : List KeyBytes → ℕ
total [] = 0
total (e ∷ es) = length e.1 + total es

-- A transaction that has taken another entry, or others.
abbrev pub stage : Tx → KeyBytes → Tx
stage tx e = record {
  buffer = overwrite tx.cur e.1 tx.buffer;
  cur = tx.cur + length e.1;
  pending = tx.pending ++ (record { key = e.0; start = tx.cur; size = length e.1 }) ∷ [];
}

abbrev pub stage_all : Tx → List KeyBytes → Tx
stage_all tx [] = tx
stage_all tx (e ∷ es) = stage_all (stage tx e) es

pub stage_all-append :
    (tx : Tx) (xs ys : List KeyBytes) → stage_all tx (xs ++ ys) ≡ stage_all (stage_all tx xs) ys
stage_all-append tx [] ys = refl
stage_all-append tx (x ∷ xs) ys = stage_all-append (stage tx x) xs ys

pub total-append : (xs ys : List KeyBytes) → total (xs ++ ys) ≡ total xs + total ys
total-append [] ys = omega arith
total-append (x ∷ xs) ys = omega (arith, total-append xs ys)

pub cur-stage_all : (tx : Tx) (es : List KeyBytes) → (stage_all tx es).cur ≡ tx.cur + total es
cur-stage_all tx [] = omega arith
cur-stage_all tx (e ∷ es) = omega (arith, cur-stage_all (stage tx e) es)

-- The entries fit into the buffer behind the cursor.
abbrev pub HasRoom : Tx → List KeyBytes → Type 0
HasRoom tx es = tx.cur + total es ≤ length tx.buffer

pub stage-HasRoom :
    (tx : Tx) (e : KeyBytes) (es : List KeyBytes) → HasRoom tx (e ∷ es) → HasRoom (stage tx e) es
stage-HasRoom tx e es h = omega (arith, length-overwrite tx.cur e.1 tx.buffer (omega arith))

pub stage_all-HasRoom :
    (tx : Tx) (xs ys : List KeyBytes) → HasRoom tx (xs ++ ys) → HasRoom (stage_all tx xs) ys
stage_all-HasRoom tx [] ys h = h
stage_all-HasRoom tx (x ∷ xs) ys h =
    stage_all-HasRoom (stage tx x) xs ys (stage-HasRoom tx x (xs ++ ys) h)

-- A write changes no slice that ends before it, and is what the slice behind it holds.
take-overwrite :
    (n off : ℕ) (bs bytes : List ℕ)
    → n ≤ off
    → off ≤ length bytes
    → take n (overwrite off bs bytes) ≡ take n bytes
take-overwrite zero off bs bytes h l = refl
take-overwrite (suc n) zero bs bytes h l = absurd (omega arith)
take-overwrite (suc n) (suc off) bs [] h l = absurd (omega arith)
take-overwrite (suc n) (suc off) bs (b ∷ bytes) h l =
    ap (◌∷◌ b) (take-overwrite n off bs bytes (omega arith) (omega arith))

slice-overwrite :
    (start n off : ℕ) (bs bytes : List ℕ)
    → start + n ≤ off
    → off ≤ length bytes
    → take n (drop start (overwrite off bs bytes)) ≡ take n (drop start bytes)
slice-overwrite zero n off bs bytes h l = take-overwrite n off bs bytes (omega arith) l
slice-overwrite (suc start) n zero bs bytes h l = absurd (omega arith)
slice-overwrite (suc start) n (suc off) bs [] h l = absurd (omega arith)
slice-overwrite (suc start) n (suc off) bs (b ∷ bytes) h l =
    slice-overwrite start n off bs bytes (omega arith) (omega arith)

slice-written :
    (off : ℕ) (bs bytes : List ℕ)
    → off ≤ length bytes
    → take (length bs) (drop off (overwrite off bs bytes)) ≡ bs
slice-written zero bs bytes h = take-length-append bs (drop (length bs) bytes)
slice-written (suc off) bs [] h = absurd (omega arith)
slice-written (suc off) bs (b ∷ bytes) h = slice-written off bs bytes (omega arith)

-- Every entry that was taken ends before the cursor.
abbrev pub EndsBy : ℕ → List Pending → Type 0
EndsBy n ps = All (λ p. p.start + p.size ≤ n) ps

resolve-overwrite :
    (off : ℕ) (bs bytes : List ℕ) (ps : List Pending)
    → off ≤ length bytes
    → EndsBy off ps
    → resolve (overwrite off bs bytes) ps ≡ resolve bytes ps
unfolding resolve
resolve-overwrite off bs bytes [] l h = refl
resolve-overwrite off bs bytes (p ∷ ps) l h =
    ap₂ (λ x xs. (p.key, x) ∷ xs) (slice-overwrite p.start p.size off bs bytes h.0 l)
      (resolve-overwrite off bs bytes ps l h.1)

resolve-append :
    (buffer : List ℕ) (ps qs : List Pending)
    → resolve buffer (ps ++ qs) ≡ resolve buffer ps ++ resolve buffer qs
unfolding resolve
resolve-append buffer [] qs = refl
resolve-append buffer (p ∷ ps) qs = ap (◌∷◌ (contents buffer p)) (resolve-append buffer ps qs)

resolve-stage :
    (tx : Tx) (e : KeyBytes)
    → tx.cur ≤ length tx.buffer
    → EndsBy tx.cur tx.pending
    → resolve (stage tx e).buffer (stage tx e).pending ≡ resolve tx.buffer tx.pending ++ e ∷ []
unfolding resolve
resolve-stage tx e l h =
    resolve-append (overwrite tx.cur e.1 tx.buffer) tx.pending
      ((record { key = e.0; start = tx.cur; size = length e.1 }) ∷ [])
    ∙ ap₂ (λ xs x. xs ++ (e.0, x) ∷ []) (resolve-overwrite tx.cur e.1 tx.buffer tx.pending l h)
        (slice-written tx.cur e.1 tx.buffer l)

stage-EndsBy :
    (tx : Tx) (e : KeyBytes)
    → EndsBy tx.cur tx.pending
    → EndsBy (stage tx e).cur (stage tx e).pending
stage-EndsBy tx e h =
    All-append (λ p. p.start + p.size ≤ tx.cur + length e.1) tx.pending _
      (All-mono (λ p. p.start + p.size ≤ tx.cur) (λ p. p.start + p.size ≤ tx.cur + length e.1)
        tx.pending (λ p b. omega arith) h)
      (omega arith, tt)

-- What the slices of the buffer hold is what was written, in the order of the writes.
pub resolve-stage_all :
    (tx : Tx) (es : List KeyBytes)
    → HasRoom tx es
    → EndsBy tx.cur tx.pending
    → resolve (stage_all tx es).buffer (stage_all tx es).pending
      ≡ resolve tx.buffer tx.pending ++ es
resolve-stage_all tx [] room h = sym (append-nil (resolve tx.buffer tx.pending))
resolve-stage_all tx (e ∷ es) room h =
    resolve-stage_all (stage tx e) es (stage-HasRoom tx e es room) (stage-EndsBy tx e h)
    ∙ ap (λ xs. xs ++ es) (resolve-stage tx e (omega arith) h)
    ∙ append_assoc (resolve tx.buffer tx.pending) (e ∷ []) es
