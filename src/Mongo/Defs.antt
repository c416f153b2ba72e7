-- ===== src/Mongo/Defs.antt =====
-- The interface that every service takes: calls of a Mongoose model and their documented laws.
use crossbill_back.Base.{
  ◌≡◌, arith, Bool, List, [], ◌∷◌, Option, none, some, String, any, filter, find?, modify_first,
  modify_all, remove_first, upsert_first, if◌then◌else◌, inl, inr, Option-cases,
}

-- A unique index: its key pattern, and when two documents have the same key in it. A test of a
-- written document against another one compares their `_id`s first.
pub record Index (D : Type 0) : Type 0 where
  pub key : String
  pub clash : D → D → Bool

-- The outcome of a write to a collection with unique indexes; `duplicate` is error code 11000.
pub data Written (D : Type 0) : Type 0 where
  written : List D → Written D
  duplicate : String → Written D

-- The first index, if any, in which `d` has the key of a document of the collection.
abbrev pub violated : {D : Type 0} → List (Index D) → D → List D → Option String
violated [] d xs = none
violated (i ∷ is) d xs = if any (i.clash d) xs then some i.key else violated is d xs

abbrev pub write_if : {D : Type 0} → Option String → List D → Written D
write_if none xs = written xs
write_if (some k) xs = duplicate k

-- `modify_first` under unique indexes.
abbrev pub modify_unique : {D : Type 0} → List (Index D) → (D → Bool) → (D → D) → List D → Written D
modify_unique is p f xs = elim (find? p xs) [
  | none ↦ written xs
  | some d ↦ write_if (violated is (f d) xs) (modify_first p f xs)
]

pub record Mongo : Type 1 where
  -- `find(p).sort({ createdAt: -1 })`
  pub find : {D : Type 0} → (D → Bool) → List D → List D
  -- `findOne(p)`
  pub find_one : {D : Type 0} → (D → Bool) → List D → Option D
  -- `create(d)`
  pub create : {D : Type 0} → List (Index D) → D → List D → Written D
  -- `updateOne(p, f)`, `findOneAndUpdate(p, f)` and `save()`
  pub update_one : {D : Type 0} → (D → Bool) → (D → D) → List D → List D
  -- the same on a collection with unique indexes
  pub update_unique : {D : Type 0} → List (Index D) → (D → Bool) → (D → D) → List D → Written D
  -- `findOneAndUpdate(p, f, { new: true, upsert: true })`, where `d` has the fields that `p` fixes
  pub upsert : {D : Type 0} → (D → Bool) → (D → D) → D → List D → D × List D
  -- `updateMany(p, f)`
  pub update_many : {D : Type 0} → (D → Bool) → (D → D) → List D → List D
  -- `deleteOne(p)`
  pub delete_one : {D : Type 0} → (D → Bool) → List D → List D
  pub find_lem : {D : Type 0} (p : D → Bool) (xs : List D) → find p xs ≡ filter p xs
  pub find_one_lem : {D : Type 0} (p : D → Bool) (xs : List D) → find_one p xs ≡ find? p xs
  pub create_lem :
      {D : Type 0} (is : List (Index D)) (d : D) (xs : List D)
      → create is d xs ≡ write_if (violated is d xs) (d ∷ xs)
  pub update_one_lem :
      {D : Type 0} (p : D → Bool) (f : D → D) (xs : List D)
      → update_one p f xs ≡ modify_first p f xs
  pub update_unique_lem :
      {D : Type 0} (is : List (Index D)) (p : D → Bool) (f : D → D) (xs : List D)
      → update_unique is p f xs ≡ modify_unique is p f xs
  pub upsert_lem :
      {D : Type 0} (p : D → Bool) (f : D → D) (d : D) (xs : List D)
      → upsert p f d xs ≡ upsert_first p f d xs
  pub update_many_lem :
      {D : Type 0} (p : D → Bool) (f : D → D) (xs : List D) → update_many p f xs ≡ modify_all p f xs
  pub delete_one_lem :
      {D : Type 0} (p : D → Bool) (xs : List D) → delete_one p xs ≡ remove_first p xs

-- What a write under unique indexes did, if it went through and had a document to change.
pub modify_unique-written :
    {D : Type 0} (is : List (Index D)) (p : D → Bool) (f : D → D) (xs : List D) {a : D}
    {ys : List D}
    → find? p xs ≡ some a
    → modify_unique is p f xs ≡ written ys
    → ys ≡ modify_first p f xs
modify_unique-written is p f xs e h = ground arith

-- What an insertion did, if it went through.
pub create-written :
    (db : Mongo) {D : Type 0} (is : List (Index D)) (d : D) (xs : List D) {ys : List D}
    → db.create is d xs ≡ written ys
    → (violated is d xs ≡ none) × (ys ≡ d ∷ xs)
create-written db is d xs h = elim (Option-cases (violated is d xs)) [
  | inl e ↦ (e, ground (arith, db.create_lem is d xs))
  | inr (k, e) ↦ ground (arith, db.create_lem is d xs)
]

pub create-duplicate :
    (db : Mongo) {D : Type 0} (is : List (Index D)) (d : D) (xs : List D) {k : String}
    → db.create is d xs ≡ duplicate k
    → violated is d xs ≡ some k
create-duplicate db is d xs h = elim (Option-cases (violated is d xs)) [
  | inl e ↦ ground (arith, db.create_lem is d xs)
  | inr (j, e) ↦ ground (arith, db.create_lem is d xs)
]
