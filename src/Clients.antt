-- ===== src/Clients.antt =====
-- Clients: api/src/modules/clients/clients.service.ts with its schema and DTOs. Texts of clients are
-- ASCII where they are turned to upper case, as their validators demand.
pub mod Normal
mod Tests
use crossbill_back.Base.{
  ℕ, ◌-◌, Bool, true, false, List, [], ◌∷◌, Option, none, some, String, ◌==◌, ◌&&◌, leb, map,
  if◌then◌else◌, get_or,
}
use crossbill_back.Base.Text.{Text}
use crossbill_back.Base.Http.{Result, ok, err, not_found, ◌>>=◌, or_throw}
use crossbill_back.Mongo.{Mongo, Written, written, duplicate}
use crossbill_back.Audit.{DocId, EventLog, log, entry}

pub data ClientType : Type 0 where
  foreign domestic : ClientType

pub data CustomerType : Type 0 where
  b2b b2c : CustomerType

pub record Client : Type 0 where
  pub id : DocId
  pub org_id : DocId
  pub kind : ClientType
  pub name : String
  pub email : Option String
  pub address : Option String
  pub country : Option Text
  pub state_code : Option Text
  pub gstin : Option Text
  pub customer_type : Option CustomerType

-- `UpdateClientDto`: every field may be absent.
pub record UpdateClientDto : Type 0 where
  pub kind : Option ClientType
  pub name : Option String
  pub email : Option String
  pub address : Option String
  pub country : Option Text
  pub state_code : Option Text
  pub gstin : Option Text
  pub customer_type : Option CustomerType

-- `CreateClientDto`: as above, with two fields required.
pub record CreateClientDto : Type 0 where
  pub kind : ClientType
  pub name : String
  pub rest : UpdateClientDto

pub record Store : Type 0 where
  pub clients : List Client
  pub events : EventLog

-- What a write sets: a field that is absent stays, one that is `some none` becomes null.
pub record Patch : Type 0 where
  pub kind : Option ClientType
  pub name : Option String
  pub email : Option String
  pub address : Option String
  pub country : Option (Option Text)
  pub state_code : Option (Option Text)
  pub gstin : Option (Option Text)
  pub customer_type : Option (Option CustomerType)

abbrev pub given {ℓ} : {A : Type ℓ} → Option A → Option (Option A)
given none = none
given (some a) = some (some a)

-- `s.toUpperCase()`.
abbrev upper_char : ℕ → ℕ
upper_char c = if leb b'a' c && leb c b'z' then c - 32 else c

abbrev pub upper : Text → Text
upper [] = []
upper (c ∷ s) = upper_char c ∷ upper s

abbrev upper_given : Option Text → Option (Option Text)
upper_given none = none
upper_given (some s) = some (some (upper s))

-- `{ ...dto }`.
abbrev spread : UpdateClientDto → Patch
spread dto = record {
  kind = dto.kind;
  name = dto.name;
  email = dto.email;
  address = dto.address;
  country = given dto.country;
  state_code = given dto.state_code;
  gstin = given dto.gstin;
  customer_type = given dto.customer_type;
}

-- `if (dto.customerType === 'b2c') out.gstin = null`.
abbrev gstin_of : Option CustomerType → Option Text → Option (Option Text)
gstin_of (some b2c) g = some none
gstin_of (some b2b) g = upper_given g
gstin_of none g = upper_given g

-- `normalize`.
abbrev normalize_as : Option ClientType → UpdateClientDto → Patch
normalize_as none dto = spread dto
normalize_as (some foreign) dto = record (spread dto) {
  country = upper_given dto.country;
  state_code = some none;
  gstin = some none;
  customer_type = some none;
}
normalize_as (some domestic) dto = record (spread dto) {
  country = some none;
  gstin = gstin_of dto.customer_type dto.gstin;
}

unfoldable pub normalize : UpdateClientDto → Patch
normalize dto = normalize_as dto.kind dto

-- The document after a write.
unfoldable pub apply_patch : Patch → Client → Client
apply_patch p c = record c {
  kind = get_or p.kind c.kind;
  name = get_or p.name c.name;
  email = elim p.email [ none ↦ c.email | some e ↦ some e ];
  address = elim p.address [ none ↦ c.address | some a ↦ some a ];
  country = get_or p.country c.country;
  state_code = get_or p.state_code c.state_code;
  gstin = get_or p.gstin c.gstin;
  customer_type = get_or p.customer_type c.customer_type;
}

-- The request of a creation, as a partial one.
abbrev pub partial : CreateClientDto → UpdateClientDto
partial dto = record dto.rest { kind = some dto.kind; name = some dto.name }

-- A document with the defaults of the schema.
abbrev pub blank_client : DocId → DocId → CreateClientDto → Client
blank_client new_id org dto = record {
  id = new_id;
  org_id = org;
  kind = dto.kind;
  name = dto.name;
  email = none;
  address = none;
  country = none;
  state_code = none;
  gstin = none;
  customer_type = none;
}

unfoldable pub new_client : DocId → DocId → CreateClientDto → Client
unfolding normalize apply_patch
new_client new_id org dto = apply_patch (normalize (partial dto)) (blank_client new_id org dto)

abbrev pub scoped : DocId → DocId → Client → Bool
scoped org i c = c.id == i && c.org_id == org

abbrev or_same : List Client → Written Client → List Client
or_same xs (written ys) = ys
or_same xs (duplicate key) = xs

module _ (db : Mongo) where
  unfoldable pub find_one_scoped : DocId → DocId → Store → Result Client
  find_one_scoped org i s =
      or_throw (db.find_one (scoped org i) s.clients) (not_found "Client not found")

  unfoldable pub create : DocId → DocId → CreateClientDto → Option DocId → Store → Client × Store
  create new_id org dto user s =
      let doc = new_client new_id org dto in
      (
        doc,
        record {
          clients = or_same s.clients (db.create [] doc s.clients);
          events = log db (entry "client.created" org user new_id) s.events;
        },
      )

  unfoldable pub update :
      DocId → DocId → UpdateClientDto → Option DocId → Store → Result (Client × Store)
  update org i dto user s = do
    let clients = db.update_one (scoped org i) (apply_patch (normalize dto)) s.clients
    client ← or_throw (db.find_one (scoped org i) clients) (not_found "Client not found")
    ok (
      client,
      record { clients = clients; events = log db (entry "client.updated" org user i) s.events },
    )

  unfoldable pub remove : DocId → DocId → Option DocId → Store → Result Store
  unfolding find_one_scoped
  remove org i user s = do
    doc ← find_one_scoped org i s
    ok (record {
      clients = db.delete_one (scoped org i) s.clients;
      events = log db (entry "client.deleted" org user i) s.events;
    })
