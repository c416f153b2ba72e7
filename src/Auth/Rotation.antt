-- ===== src/Auth/Rotation.antt =====
-- A refresh token works once; presented again, it burns its family.
use mathlib.Core.Path.{subst}
use crossbill_back.Base.{
  ℕ, ◌+◌, ◌*◌, ◌≡◌, ◌⊎◌, refl, sym, ap, ◌∙◌, none, Option, get_or, inl, inr, true, false, List, [],
  ◌∷◌, some, arith, All, find?, modify_first, modify_all, Bool-cases, Option-cases,
}
use crossbill_back.Base.Updates.{All-find?, find?-holds}
use crossbill_back.Base.Http.{ok, err, unauthorized}
use crossbill_back.Mongo.{Mongo}
use crossbill_back.Audit.{DocId}
use crossbill_back.Auth.Defs.{
  owner, User, JwtPayload, Token, TokenPair, RefreshToken, Jwt, Store, of_family, of_user_family,
  by_id, revoke, issued, issue_tokens, is_reuse, live_identity, revoke_family, rotate, refresh,
}

-- Every token of the family is revoked.
abbrev pub Burned : DocId → Store → Type 0
Burned family s = All (λ k. of_family family k ≡ true → k.revoked ≡ true) s.refresh_tokens

-- The identity of a user, of whom a token said `said`.
abbrev pub IsIdentity : JwtPayload → User → JwtPayload → Type 0
IsIdentity said user who =
    (who.sub ≡ user.id)
    × (who.email ≡ user.email)
    × (who.role ≡ get_or user.role owner)
    × (who.org_id ≡ get_or user.org_id said.org_id)

-- The record of a refresh token that is issued at an instant.
abbrev pub IsFresh : Jwt → ℕ → DocId → DocId → Token → RefreshToken → Type 0
IsFresh jwt now user family token k =
    (k.user_id ≡ user)
    × (k.family_id ≡ family)
    × (k.token_hash ≡ jwt.hash_token token)
    × (k.revoked ≡ false)
    × (k.expires_at ≡ now + jwt.refresh_ttl * 1000)

-- The newest record, if there is one, is not a live one of the token.
abbrev pub IsStale : Jwt → Token → Option RefreshToken → Type 0
IsStale jwt token newest =
    (newest ≡ none)
    ⊎ ((k : RefreshToken) × (newest ≡ some k)
        × ((k.revoked ≡ true) ⊎ (¬ (k.token_hash ≡ jwt.hash_token token))))

IsStale-is_reuse :
    (db : Mongo) (jwt : Jwt) (token : Token) (newest : Option RefreshToken)
    → IsStale jwt token newest
    → is_reuse db jwt token newest ≡ true
IsStale-is_reuse db jwt token newest (inl e) = rw e refl
IsStale-is_reuse db jwt token newest (inr (k, e, inl gone)) = ground arith
IsStale-is_reuse db jwt token newest (inr (k, e, inr other)) = ground arith

whole_family :
    (family : DocId) (xs : List RefreshToken)
    → All
        (λ k. of_family family k ≡ true → k.revoked ≡ true)
        (modify_all (of_family family) revoke xs)
whole_family family [] = tt
whole_family family (x ∷ xs) = elim (Bool-cases (of_family family x)) [
  | inl y ↦ rw y (λ _. refl, whole_family family xs)
  | inr n ↦ rw n (λ y. cc, whole_family family xs)
]

module _ (db : Mongo) (jwt : Jwt) (now : ℕ) (token : Token) (s : Store) where
  -- What a refresh that goes through found and wrote.
  pub refresh-eq-ok :
      {pair : TokenPair} {t : Store}
      → refresh db jwt now token s ≡ (ok pair, t)
      → (payload : JwtPayload) × (family : DocId) × (stored : RefreshToken) × (user : User)
        × (jwt.verify_refresh now token ≡ some (payload, family))
        × (find? (of_user_family payload.sub family) s.refresh_tokens ≡ some stored)
        × (stored.revoked ≡ false)
        × (stored.token_hash ≡ jwt.hash_token token)
        × (find? (by_id payload.sub) s.users ≡ some user)
        × (pair.refresh_token ≡ jwt.sign_refresh now (live_identity db jwt payload user) family)
        × (pair.access_token ≡ jwt.sign_access now (live_identity db jwt payload user))
        × (t.refresh_tokens
            ≡ issued db jwt now (live_identity db jwt payload user) family
              ∷ modify_first (of_user_family payload.sub family) revoke s.refresh_tokens)
  unfolding refresh rotate issue_tokens
  refresh-eq-ok {pair} {t} h = elim (Option-cases (jwt.verify_refresh now token)) [
    | inl e ↦ ground arith
    | inr (claims, e) ↦
        let payload : JwtPayload = claims.0 in
        let family : DocId = claims.1 in
        elim (Option-cases (db.find_one (of_user_family payload.sub family) s.refresh_tokens)) [
          | inl f ↦ ground arith
          | inr (stored, f) ↦ elim (Option-cases (db.find_one (by_id payload.sub) s.users)) [
            | inl g ↦ ground arith
            | inr (user, g) ↦ (
              payload,
              family,
              stored,
              user,
              e,
              sym (db.find_one_lem (of_user_family payload.sub family) s.refresh_tokens) ∙ f,
              ground arith,
              ground arith,
              sym (db.find_one_lem (by_id payload.sub) s.users) ∙ g,
              ground arith,
              ground arith,
              ground (
                arith,
                db.update_one_lem (of_user_family payload.sub family) revoke s.refresh_tokens,
                db.create_lem [] (issued db jwt now (live_identity db jwt payload user) family)
                    (modify_first (of_user_family payload.sub family) revoke s.refresh_tokens),
              ),
            )
          ]
        ]
  ]

  -- A refresh that goes through was of a valid token whose record is the newest of its user and
  -- family, not revoked and of the same hash. It revokes that record, and adds one of the same family,
  -- not revoked, that expires after the lifetime of refresh tokens. Both new tokens are signed for the
  -- user as the database has it now: the id, the e-mail, the role, which is owner if the user has none,
  -- and the organisation, which is that of the old token if the user has none.
  pub refresh-rotates :
      {pair : TokenPair} {t : Store}
      → refresh db jwt now token s ≡ (ok pair, t)
      → (payload : JwtPayload) × (family : DocId) × (stored : RefreshToken) × (user : User)
        × (who : JwtPayload) × (fresh : RefreshToken) × (jwt.verify_refresh now token
            ≡ some (payload, family))
        × (find? (of_user_family payload.sub family) s.refresh_tokens ≡ some stored)
        × (stored.revoked ≡ false)
        × (stored.token_hash ≡ jwt.hash_token token)
        × (find? (by_id payload.sub) s.users ≡ some user)
        × IsIdentity payload user who
        × (pair.refresh_token ≡ jwt.sign_refresh now who family)
        × (pair.access_token ≡ jwt.sign_access now who)
        × IsFresh jwt now user.id family pair.refresh_token fresh
        × (t.refresh_tokens
            ≡ fresh ∷ modify_first (of_user_family payload.sub family) revoke s.refresh_tokens)
  refresh-rotates {pair} {t} h =
      let (payload, family, stored, user, valid, newest, free, hash, found, signed, access, wrote) =
        refresh-eq-ok h in
      (
        payload,
        family,
        stored,
        user,
        live_identity db jwt payload user,
        issued db jwt now (live_identity db jwt payload user) family,
        valid,
        newest,
        free,
        hash,
        found,
        (refl, refl, refl, refl),
        signed,
        access,
        (refl, refl, ap jwt.hash_token (sym signed), refl, refl),
        wrote,
      )

  -- A presented token that the code takes for a reused one is refused, and burns its family.
  pub refresh-is_reuse :
      {payload : JwtPayload} {family : DocId}
      → jwt.verify_refresh now token ≡ some (payload, family)
      → is_reuse db jwt token (find? (of_user_family payload.sub family) s.refresh_tokens) ≡ true
      → let r = refresh db jwt now token s in
        (r.0 ≡ err (unauthorized "Refresh token reuse detected; session revoked"))
        × Burned family r.1
  unfolding refresh rotate
  refresh-is_reuse {payload} {family} e reuse =
      let f = db.find_one_lem (of_user_family payload.sub family) s.refresh_tokens in
      let reuse' : is_reuse db jwt token
            (db.find_one (of_user_family payload.sub family) s.refresh_tokens)
          ≡ true =
        rw f reuse in
      let q : refresh db jwt now token s ≡ (
        err (unauthorized "Refresh token reuse detected; session revoked"),
        revoke_family db jwt family s,
      ) =
        ground arith in
      let burned : Burned family (revoke_family db jwt family s) =
        rw (db.update_many_lem (of_family family) revoke s.refresh_tokens)
          (whole_family family s.refresh_tokens) in
      (ap (λ r. r.0) q, subst (λ r. Burned family r.1) (sym q) burned)

  -- A valid token is refused, and from then on every token of its family is revoked, if its user and
  -- family have no record, or the newest one is revoked, or the newest one is of another hash.
  pub refresh-reuse :
      {payload : JwtPayload} {family : DocId}
      → jwt.verify_refresh now token ≡ some (payload, family)
      → IsStale jwt token (find? (of_user_family payload.sub family) s.refresh_tokens)
      → let r = refresh db jwt now token s in
        (r.0 ≡ err (unauthorized "Refresh token reuse detected; session revoked"))
        × Burned family r.1
  refresh-reuse {payload} {family} e stale = refresh-is_reuse e (
      IsStale-is_reuse db jwt token (find? (of_user_family payload.sub family) s.refresh_tokens)
        stale)

module _ (db : Mongo) (jwt : Jwt) (s : Store) where
  -- In a family whose tokens are all revoked no token is refreshed.
  pub Burned-refresh :
      (now : ℕ) (token : Token) {payload : JwtPayload} {family : DocId}
      → Burned family s
      → jwt.verify_refresh now token ≡ some (payload, family)
      → let r = refresh db jwt now token s in
        (r.0 ≡ err (unauthorized "Refresh token reuse detected; session revoked"))
        × Burned family r.1
  Burned-refresh now token {payload} {family} burned e =
      refresh-is_reuse db jwt now token s e
        (elim (Option-cases (find? (of_user_family payload.sub family) s.refresh_tokens)) [
          | inl f ↦ ground arith
          | inr (k, f) ↦
              let mine = find?-holds (of_user_family payload.sub family) s.refresh_tokens f in
              let gone : k.revoked ≡ true =
                All-find? _ (of_user_family payload.sub family) s.refresh_tokens f burned
                  (ground arith) in
              ground arith
        ])

module _ (db : Mongo) (jwt : Jwt) (now later : ℕ) (token : Token) (s : Store) where
  -- A refresh token is refreshed once: presented again after a refresh that went through, and still
  -- saying the same, it is refused and its family is revoked, if the token issued in between has
  -- another hash.
  pub refresh-once :
      {pair : TokenPair} {t : Store}
      → refresh db jwt now token s ≡ (ok pair, t)
      → jwt.verify_refresh later token ≡ jwt.verify_refresh now token
      → ¬ (jwt.hash_token pair.refresh_token ≡ jwt.hash_token token)
      → let r = refresh db jwt later token t in
        (r.0 ≡ err (unauthorized "Refresh token reuse detected; session revoked"))
        × ((payload : JwtPayload) × (family : DocId) × (jwt.verify_refresh now token
              ≡ some (payload, family))
            × Burned family r.1)
  refresh-once {pair} {t} h same other =
      let (payload, family, stored, user, valid, newest, free, hash, found, signed, access, wrote) =
        refresh-eq-ok db jwt now token s h in
      let mine = find?-holds (by_id payload.sub) s.users found in
      let fresh : find? (of_user_family payload.sub family) t.refresh_tokens
          ≡ some (issued db jwt now (live_identity db jwt payload user) family) =
        ground (arith, wrote) in
      let reuse : is_reuse db jwt token (find? (of_user_family payload.sub family) t.refresh_tokens)
          ≡ true =
        rw fresh (ground arith) in
      let (refused, burned) = refresh-is_reuse db jwt later token t (same ∙ valid) reuse in
      (refused, (payload, family, valid, burned))
