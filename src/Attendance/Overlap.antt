-- ===== src/Attendance/Overlap.antt =====
-- The live leaves of an employee do not overlap.
use crossbill_back.Base.{
  ℕ, ◌<◌, ◌≡◌, refl, sym, ◌∙◌, ◌⊎◌, inl, inr, Bool, true, false, List, [], ◌∷◌, none, some, arith,
  All, find?, modify_first, Bool-cases, Option-cases,
}
use crossbill_back.Base.Updates.{find?-none}
use crossbill_back.Base.Http.{Result, ok, err, Result-cases}
use crossbill_back.Mongo.{Mongo}
use crossbill_back.Audit.{DocId}
use crossbill_back.Attendance.Defs.{
  Leave, CreateLeaveDto, Decision, Store, is_live, is_pending, overlaps, scoped_leave,
}
use crossbill_back.Attendance.Handlers.{
  require_active_employee, request_leave, decide_leave, decided,
}

-- Two live leaves of one employee of an organisation have no day in common.
abbrev pub Apart : Leave → Leave → Type 0
Apart a b =
    a.org_id ≡ b.org_id
    → a.employee_id ≡ b.employee_id
    → is_live a.status ≡ true
    → is_live b.status ≡ true
    → (a.to < b.from) ⊎ (b.to < a.from)

abbrev pub Pairwise : List Leave → Type 0
Pairwise [] = Unit
Pairwise (x ∷ xs) = All (Apart x) xs × Pairwise xs

-- The new leave has the same person and days, and is live only if the old one is.
abbrev Shrunk : Leave → Leave → Type 0
Shrunk a b =
    (b.org_id ≡ a.org_id)
    × (b.employee_id ≡ a.employee_id)
    × (b.from ≡ a.from)
    × (b.to ≡ a.to)
    × (is_live b.status ≡ true → is_live a.status ≡ true)

Apart-Shrunk : (x a b : Leave) → Shrunk a b → Apart x a → Apart x b
Apart-Shrunk x a b h k qo qe lx lb = grind arith

Shrunk-Apart : (a b x : Leave) → Shrunk a b → Apart a x → Apart b x
Shrunk-Apart a b x h k qo qe lb lx = grind arith

module _ (p : Leave → Bool) (f : Leave → Leave) where
  All-modify :
      (x : Leave) (xs : List Leave) {a : Leave}
      → find? p xs ≡ some a
      → Shrunk a (f a)
      → All (Apart x) xs
      → All (Apart x) (modify_first p f xs)
  All-modify x [] e h k = tt
  All-modify x (y ∷ ys) {a} e h k = elim (Bool-cases (p y)) [
    | inl t ↦
        let q : y ≡ a = ground arith in rw (t, q) (Apart-Shrunk x a (f a) h (rw q at k.0), k.1)
    | inr n ↦ rw n (k.0, All-modify x ys (rw n at e) h k.1)
  ]

  Pairwise-modify :
      (xs : List Leave) {a : Leave}
      → find? p xs ≡ some a
      → Shrunk a (f a)
      → Pairwise xs
      → Pairwise (modify_first p f xs)
  Pairwise-modify [] e h k = tt
  Pairwise-modify (y ∷ ys) {a} e h k = elim (Bool-cases (p y)) [
    | inl t ↦ let q : y ≡ a = ground arith in rw (t, q) (shrink a ys h (rw q at k.0), k.1)
    | inr n ↦ rw n (All-modify y ys (rw n at e) h k.0, Pairwise-modify ys (rw n at e) h k.1)
  ]
    where
      shrink :
          (a : Leave) (ys : List Leave) → Shrunk a (f a) → All (Apart a) ys → All (Apart (f a)) ys
      shrink a [] h k = tt
      shrink a (z ∷ zs) h k = (Shrunk-Apart a (f a) z h k.0, shrink a zs h k.1)

-- A leave that meets no live leave of its employee is apart from all.
new-Apart :
    (org employee : DocId) (from to : ℕ) (doc : Leave) (xs : List Leave)
    → (doc.org_id ≡ org) × (doc.employee_id ≡ employee) × (doc.from ≡ from) × (doc.to ≡ to)
    → All (λ l. overlaps org employee from to l ≡ false) xs
    → All (Apart doc) xs
new-Apart org employee from to doc [] q h = tt
new-Apart org employee from to doc (x ∷ xs) q h =
    (λ qo qe ld lx. ground arith, new-Apart org employee from to doc xs q h.1)

-- A request on leaves.
pub data Request : Type 0 where
  ask : ℕ → DocId → DocId → CreateLeaveDto → Request
  decide : ℕ → DocId → DocId → Decision → DocId → Request

abbrev pub store_after : Store → Result (Leave × Store) → Store
store_after s (ok r) = r.1
store_after s (err e) = s

module _ (db : Mongo) where
  unfoldable pub serve : List Request → Store → Store
  serve [] s = s
  serve (ask now i org dto ∷ qs) s = serve qs (store_after s (request_leave db now i org dto s))
  serve (decide now org i decision approver ∷ qs) s =
      serve qs (store_after s (decide_leave db now org i decision approver s))

  module _ (s : Store) (good : Pairwise s.leaves) where
    pub request_leave-Pairwise :
        (now i org : DocId) (dto : CreateLeaveDto) {r : Leave × Store}
        → request_leave db now i org dto s ≡ ok r
        → Pairwise r.1.leaves
    unfolding request_leave
    request_leave-Pairwise now i org dto {r} h =
        elim (Result-cases (require_active_employee db org dto.employee_id s)) [
          | inr (x, e) ↦ ground arith
          | inl (u, e) ↦
              let free : find? (overlaps org dto.employee_id dto.from dto.to) s.leaves ≡ none =
                ground (
                  arith,
                  db.find_one_lem (overlaps org dto.employee_id dto.from dto.to) s.leaves,
                ) in
              let wrote : r.1.leaves ≡ r.0 ∷ s.leaves =
                ground (arith, db.create_lem [] r.0 s.leaves) in
              let key : (r.0.org_id ≡ org)
                  × (r.0.employee_id ≡ dto.employee_id)
                  × (r.0.from ≡ dto.from)
                  × (r.0.to ≡ dto.to) =
                ground arith in
              rw wrote (
                new-Apart org dto.employee_id dto.from dto.to r.0 s.leaves key
                    (find?-none _ s.leaves free),
                good,
              )
        ]

    pub decide_leave-Pairwise :
        (now org i : DocId) (decision : Decision) (approver : DocId) {r : Leave × Store}
        → decide_leave db now org i decision approver s ≡ ok r
        → Pairwise r.1.leaves
    unfolding decide_leave
    decide_leave-Pairwise now org i decision approver {r} h =
        elim (Option-cases (db.find_one (scoped_leave org i) s.leaves)) [
          | inl e ↦ ground arith
          | inr (old, e) ↦
              let found : find? (scoped_leave org i) s.leaves ≡ some old =
                sym (db.find_one_lem (scoped_leave org i) s.leaves) ∙ e in
              let new : Leave = decided db now decision approver old in
              let pending : is_pending old.status ≡ true = ground arith in
              let wrote : r.1.leaves ≡ modify_first (scoped_leave org i) (λ _. new) s.leaves =
                ground (arith, db.update_one_lem (scoped_leave org i) (λ _. new) s.leaves) in
              rw wrote (
                Pairwise-modify (scoped_leave org i) (λ _. new) s.leaves found
                  (refl, refl, refl, refl, λ l. ground arith) good)
        ]
