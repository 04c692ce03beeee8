-- ===== src/ChatStream/Order.antt =====
-- The order in which tool calls are signed.
use mathlib.Core.List.{Perm}
use mathlib.Core.List.Perm
use tee_gateway.Prelude.{ℕ, ◌≤◌, inl, inr, List, [], ◌∷◌, All, Bool-cases, leb, arith}
use tee_gateway.ChatStream.State.{BufferedCall}
use tee_gateway.ChatStream.{insert_call, sort_calls}

-- The indices do not fall.
abbrev pub IsOrdered : List (ℕ × BufferedCall) → Type 0
IsOrdered [] = Unit
IsOrdered (call ∷ calls) =
    All (λ (other : ℕ × BufferedCall). call.0 ≤ other.0) calls × IsOrdered calls

All-insert_call :
    (P : ℕ × BufferedCall → Type 0) (call : ℕ × BufferedCall) (calls : List (ℕ × BufferedCall))
    → P call
    → All P calls
    → All P (insert_call call calls)
All-insert_call P call [] holds all = (holds, tt)
All-insert_call P call (other ∷ calls) holds all = elim (Bool-cases (leb call.0 other.0)) [
  | inl before ↦ rw before (holds, all)
  | inr behind ↦ rw behind (all.0, All-insert_call P call calls holds all.1)
]

All-le :
    (m n : ℕ) (calls : List (ℕ × BufferedCall))
    → m ≤ n
    → All (λ (other : ℕ × BufferedCall). n ≤ other.0) calls
    → All (λ (other : ℕ × BufferedCall). m ≤ other.0) calls
All-le m n [] le all = tt
All-le m n (other ∷ calls) le all = (omega (arith, all.0), All-le m n calls le all.1)

insert_call-IsOrdered :
    (call : ℕ × BufferedCall) (calls : List (ℕ × BufferedCall))
    → IsOrdered calls
    → IsOrdered (insert_call call calls)
insert_call-IsOrdered call [] ordered = (tt, tt)
insert_call-IsOrdered call (other ∷ calls) ordered = elim (Bool-cases (leb call.0 other.0)) [
  | inl before ↦
      let le : call.0 ≤ other.0 = ground (arith, before) in
      rw before ((le, All-le call.0 other.0 calls le ordered.0), ordered)
  | inr behind ↦
      let le : other.0 ≤ call.0 = ground (arith, behind) in
      rw behind (
        All-insert_call (λ (o : ℕ × BufferedCall). other.0 ≤ o.0) call calls le ordered.0,
        insert_call-IsOrdered call calls ordered.1,
      )
]

insert_call-Perm :
    (call : ℕ × BufferedCall) (calls : List (ℕ × BufferedCall))
    → Perm (call ∷ calls) (insert_call call calls)
insert_call-Perm call [] = Perm.refl (call ∷ [])
insert_call-Perm call (other ∷ calls) = elim (Bool-cases (leb call.0 other.0)) [
  | inl before ↦ rw before (Perm.refl (call ∷ other ∷ calls))
  | inr behind ↦
      rw behind
        (Perm.trans (Perm.swap other call calls) (Perm.cons other (insert_call-Perm call calls)))
]

pub sort_calls-IsOrdered : (calls : List (ℕ × BufferedCall)) → IsOrdered (sort_calls calls)
sort_calls-IsOrdered [] = tt
sort_calls-IsOrdered (call ∷ calls) =
    insert_call-IsOrdered call (sort_calls calls) (sort_calls-IsOrdered calls)

pub sort_calls-Perm : (calls : List (ℕ × BufferedCall)) → Perm calls (sort_calls calls)
sort_calls-Perm [] = Perm.refl []
sort_calls-Perm (call ∷ calls) =
    Perm.trans (Perm.cons call (sort_calls-Perm calls)) (insert_call-Perm call (sort_calls calls))
