-- ===== src/Clients/Tests.antt =====
-- Clients that are created, changed and deleted.
use crossbill_back.Base.{◌≡◌, refl, inl, inr, List, [], ◌∷◌, Option, none, some, find?}
use crossbill_back.Base.Text.{Text, codes}
use crossbill_back.Base.Http.{ok}
use crossbill_back.Mongo.InMemory.{in_memory}
use crossbill_back.Clients.{
  ClientType, foreign, domestic, CustomerType, b2b, b2c, Client, UpdateClientDto, CreateClientDto,
  Store, update, scoped, new_client,
}
use crossbill_back.Clients.Normal.{
  Normal, IsNormal, Request, add, change, drop, serve, serve-Normal, update-denormal,
}

abbrev gstin : Text
gstin = codes "27AAPFU0939F1ZV"

abbrev fields : Option ClientType → Option CustomerType → UpdateClientDto
fields kind customer = record {
  kind = kind;
  name = none;
  email = none;
  address = none;
  country = some (codes "us");
  state_code = none;
  gstin = some gstin;
  customer_type = customer;
}

abbrev request : ClientType → CreateClientDto
request kind = record { kind = kind; name = "Globex"; rest = fields none (some b2c) }

abbrev empty : Store
empty = record { clients = []; events = [] }

abbrev requests : List Request
requests =
    add 9 1 (request foreign) none
    ∷ add 9 2 (request domestic) none
    ∷ change 9 1 (fields (some domestic) (some b2b)) none
    ∷ drop 9 2 none
    ∷ []

upper_country : (new_client 1 9 (request foreign)).country ≡ some (codes "US")
unfolding new_client
upper_country = refl

serve-Normal_example : Normal (serve in_memory requests empty)
serve-Normal_example =
    serve-Normal in_memory requests empty
      (inl refl, (inr (refl, inr refl), (inr (refl, inl refl), (tt, tt)))) tt

abbrev customer : Client
customer = record {
  id = 1;
  org_id = 9;
  kind = foreign;
  name = "Globex";
  email = none;
  address = none;
  country = some (codes "US");
  state_code = none;
  gstin = none;
  customer_type = none;
}

abbrev one : Store
one = record { clients = customer ∷ []; events = [] }

update-denormal_example :
    (d : Client) × (t : Store) × (update in_memory 9 1 (fields none none) none one ≡ ok (d, t))
    × (find? (scoped 9 1) t.clients ≡ some d)
    × (d.gstin ≡ some gstin)
    × (¬ IsNormal d)
update-denormal_example =
    update-denormal in_memory 9 1 (fields none none) none one refl (inl refl) refl refl refl
