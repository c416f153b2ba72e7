-- ===== src/Clients/Normal.antt =====
-- The shape of a client: which fields its type allows.
use crossbill_back.Base.{
  ◌≡◌, refl, ◌∙◌, ◌⊎◌, inl, inr, List, [], ◌∷◌, Option, none, some, true, arith, All, find?,
  Option-cases,
}
use crossbill_back.Base.Updates.{
  All-modify_first, All-remove_first, find?-holds, find?-modify_first,
}
use crossbill_back.Base.Text.{Text}
use crossbill_back.Base.Http.{Result, ok, err}
use crossbill_back.Mongo.{Mongo}
use crossbill_back.Audit.{DocId, log, entry}
use crossbill_back.Clients.{
  foreign, domestic, b2b, b2c, Client, UpdateClientDto, CreateClientDto, Store, normalize,
  apply_patch, partial, blank_client, new_client, scoped, create, update, remove,
}

-- A foreign client has no GST data, a domestic one no country, and a consumer no GSTIN.
abbrev pub IsNormal : Client → Type 0
IsNormal c =
    (c.kind ≡ foreign → (c.state_code ≡ none) × (c.gstin ≡ none) × (c.customer_type ≡ none))
    × (c.kind ≡ domestic → c.country ≡ none)
    × (c.customer_type ≡ some b2c → c.gstin ≡ none)

-- A request that names the type, and for a domestic client the kind of customer.
abbrev pub IsWhole : UpdateClientDto → Type 0
IsWhole dto =
    (dto.kind ≡ some foreign)
    ⊎ ((dto.kind ≡ some domestic)
        × ((dto.customer_type ≡ some b2b) ⊎ (dto.customer_type ≡ some b2c)))

pub apply_patch-IsNormal :
    (dto : UpdateClientDto) (c : Client) → IsWhole dto → IsNormal (apply_patch (normalize dto) c)
unfolding normalize apply_patch
apply_patch-IsNormal dto c h = ground arith

abbrev pub Normal : Store → Type 0
Normal s = All IsNormal s.clients

-- A request with no type, on the client that it finds.
unnormalised :
    (org i : DocId) (dto : UpdateClientDto) (c : Client) {g : Text}
    → dto.kind ≡ none
    → dto.customer_type ≡ none
    → dto.gstin ≡ some g
    → scoped org i c ≡ true
    → let d = apply_patch (normalize dto) c in
      (d.gstin ≡ some g)
      × (d.kind ≡ c.kind)
      × (d.customer_type ≡ c.customer_type)
      × (scoped org i d ≡ true)
unfolding normalize apply_patch
unnormalised org i dto c k ct gs mine = ground arith

-- A request on clients; updates are partial.
pub data Request : Type 0 where
  add : DocId → DocId → CreateClientDto → Option DocId → Request
  change : DocId → DocId → UpdateClientDto → Option DocId → Request
  drop : DocId → DocId → Option DocId → Request

abbrev pub IsWholeRequest : Request → Type 0
IsWholeRequest (add i org dto user) = IsWhole (partial dto)
IsWholeRequest (change org i dto user) = IsWhole dto
IsWholeRequest (drop org i user) = Unit

module _ (db : Mongo) where
  abbrev pub after : Store → Result (Client × Store) → Store
  after s (ok r) = r.1
  after s (err e) = s

  abbrev pub after_drop : Store → Result Store → Store
  after_drop s (ok t) = t
  after_drop s (err e) = s

  unfoldable pub serve : List Request → Store → Store
  serve [] s = s
  serve (add i org dto user ∷ qs) s = serve qs (create db i org dto user s).1
  serve (change org i dto user ∷ qs) s = serve qs (after s (update db org i dto user s))
  serve (drop org i user ∷ qs) s = serve qs (after_drop s (remove db org i user s))

  create-Normal :
      (i org : DocId) (dto : CreateClientDto) (user : Option DocId) (s : Store)
      → IsWhole (partial dto)
      → Normal s
      → Normal (create db i org dto user s).1
  unfolding create new_client normalize apply_patch
  create-Normal i org dto user s whole good =
      let e : (create db i org dto user s).1.clients ≡ new_client i org dto ∷ s.clients =
        ground (arith, db.create_lem [] (new_client i org dto) s.clients) in
      rw e (apply_patch-IsNormal (partial dto) (blank_client i org dto) whole, good)

  update-Normal :
      (org i : DocId) (dto : UpdateClientDto) (user : Option DocId) (s : Store)
      → IsWhole dto
      → Normal s
      → Normal (after s (update db org i dto user s))
  unfolding update
  update-Normal org i dto user s whole good =
      let f = apply_patch (normalize dto) in
      elim (Option-cases (db.find_one (scoped org i) (db.update_one (scoped org i) f s.clients))) [
        | inl e ↦ rw e good
        | inr (c, e) ↦
            rw (e, db.update_one_lem (scoped org i) f s.clients)
              (All-modify_first IsNormal (scoped org i) f s.clients
                (λ a p h. apply_patch-IsNormal dto a whole) good)
      ]

  remove-Normal :
      (org i : DocId) (user : Option DocId) (s : Store)
      → Normal s
      → Normal (after_drop s (remove db org i user s))
  unfolding remove
  remove-Normal org i user s good = elim (Option-cases (db.find_one (scoped org i) s.clients)) [
    | inl e ↦ rw e good
    | inr (c, e) ↦
        rw (e, db.delete_one_lem (scoped org i) s.clients)
          (All-remove_first IsNormal (scoped org i) s.clients good)
  ]

  -- Whatever clients are created, updated and deleted, in any order and with refusals among them, if
  -- each request that writes names the type, and a domestic one the kind of customer: foreign clients
  -- keep no GST data, domestic ones no country, and consumers no GSTIN.
  pub serve-Normal :
      (qs : List Request) (s : Store) → All IsWholeRequest qs → Normal s → Normal (serve qs s)
  unfolding serve
  serve-Normal [] s whole good = good
  serve-Normal (add i org dto user ∷ qs) s whole good =
      serve-Normal qs (create db i org dto user s).1 whole.1
        (create-Normal i org dto user s whole.0 good)
  serve-Normal (change org i dto user ∷ qs) s whole good =
      serve-Normal qs (after s (update db org i dto user s)) whole.1
        (update-Normal org i dto user s whole.0 good)
  serve-Normal (drop org i user ∷ qs) s whole good =
      serve-Normal qs (after_drop s (remove db org i user s)) whole.1
        (remove-Normal org i user s good)

  -- An update that gives a GSTIN and names neither type nor kind of customer is not normalised: on a
  -- foreign client, or a consumer, it goes through and leaves a client with the GSTIN that its type
  -- does not allow.
  pub update-denormal :
      (org i : DocId) (dto : UpdateClientDto) (user : Option DocId) (s : Store) {c : Client}
      {g : Text}
      → find? (scoped org i) s.clients ≡ some c
      → (c.kind ≡ foreign) ⊎ (c.customer_type ≡ some b2c)
      → dto.kind ≡ none
      → dto.customer_type ≡ none
      → dto.gstin ≡ some g
      → (d : Client) × (t : Store) × (update db org i dto user s ≡ ok (d, t))
        × (find? (scoped org i) t.clients ≡ some d)
        × (d.gstin ≡ some g)
        × (¬ IsNormal d)
  unfolding update
  update-denormal org i dto user s {c} {g} found odd k ct gs =
      let f = apply_patch (normalize dto) in
      let d : Client = f c in
      let (same_gstin, same_kind, same_customer, mine) =
        unnormalised org i dto c k ct gs (find?-holds (scoped org i) s.clients found) in
      let wrote : find? (scoped org i) (db.update_one (scoped org i) f s.clients) ≡ some d =
        rw (db.update_one_lem (scoped org i) f s.clients)
          (find?-modify_first (scoped org i) f s.clients found mine) in
      let seen : db.find_one (scoped org i) (db.update_one (scoped org i) f s.clients) ≡ some d =
        db.find_one_lem (scoped org i) (db.update_one (scoped org i) f s.clients) ∙ wrote in
      (
        d,
        record {
          clients = db.update_one (scoped org i) f s.clients;
          events = log db (entry "client.updated" org user i) s.events;
        },
        rw seen refl,
        wrote,
        same_gstin,
        λ normal. ground arith,
      )
