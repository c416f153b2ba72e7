-- ===== src/Auth/Tests.antt =====
-- A session that is refreshed, and a token that is presented twice.
use crossbill_back.Base.{◌+◌, ◌*◌, ◌≡◌, refl, inr, false, [], ◌∷◌, some, arith, find?, modify_first}
use crossbill_back.Base.Http.{ok, err, unauthorized}
use crossbill_back.Mongo.InMemory.{in_memory}
use crossbill_back.Audit.{DocId}
use crossbill_back.Auth.Defs.{
  Role, User, JwtPayload, TokenPair, RefreshToken, Jwt, Store, of_user_family, by_id, revoke,
  issue_tokens, rotate, refresh,
}
use crossbill_back.Auth.Rotation.{
  Burned, IsIdentity, IsFresh, refresh-rotates, refresh-reuse, refresh-once,
}

abbrev claims : JwtPayload
claims = record { sub = 1; org_id = 9; role = Role.owner; email = "a@b.c" }

abbrev jwt : Jwt
jwt = record {
  sign_access = λ now p. now;
  sign_refresh = λ now p family. now * 100 + family;
  verify_refresh = λ now token. some (claims, 5);
  hash_token = λ token. token;
  refresh_ttl = 60;
}

abbrev user : User
user = record { id = 1; org_id = some 9; role = some Role.owner; email = "a@b.c" }

abbrev stored : RefreshToken
stored = record {
  user_id = 1;
  family_id = 5;
  token_hash = 105;
  revoked = false;
  expires_at = 61000;
}

abbrev store : Store
store = record { users = user ∷ []; refresh_tokens = stored ∷ [] }

abbrev burned : Store
burned = record { users = user ∷ []; refresh_tokens = revoke stored ∷ [] }

refreshed : TokenPair × Store
unfolding refresh rotate issue_tokens
refreshed = elim (refresh in_memory jwt 2 105 store).0 [
  | ok pair ↦ (pair, (refresh in_memory jwt 2 105 store).1)
  | err e ↦ (record { access_token = 0; refresh_token = 0 }, store)
]

refreshed_lem : refresh in_memory jwt 2 105 store ≡ (ok refreshed.0, refreshed.1)
unfolding refreshed refresh rotate issue_tokens
refreshed_lem = refl

new_hash : ¬ (jwt.hash_token refreshed.0.refresh_token ≡ jwt.hash_token 105)
unfolding refreshed refresh rotate issue_tokens
new_hash e = omega (arith, e)

refresh-rotates_example :
    (payload : JwtPayload) × (family : DocId) × (old : RefreshToken) × (owned_by : User)
    × (who : JwtPayload) × (fresh : RefreshToken) × (jwt.verify_refresh 2 105
        ≡ some (payload, family))
    × (find? (of_user_family payload.sub family) store.refresh_tokens ≡ some old)
    × (old.revoked ≡ false)
    × (old.token_hash ≡ jwt.hash_token 105)
    × (find? (by_id payload.sub) store.users ≡ some owned_by)
    × IsIdentity payload owned_by who
    × (refreshed.0.refresh_token ≡ jwt.sign_refresh 2 who family)
    × (refreshed.0.access_token ≡ jwt.sign_access 2 who)
    × IsFresh jwt 2 owned_by.id family refreshed.0.refresh_token fresh
    × (refreshed.1.refresh_tokens
        ≡ fresh ∷ modify_first (of_user_family payload.sub family) revoke store.refresh_tokens)
refresh-rotates_example = refresh-rotates in_memory jwt 2 105 store refreshed_lem

refresh-once_example :
    let r = refresh in_memory jwt 3 105 refreshed.1 in
    (r.0 ≡ err (unauthorized "Refresh token reuse detected; session revoked"))
    × ((payload : JwtPayload) × (family : DocId) × (jwt.verify_refresh 2 105
          ≡ some (payload, family))
        × Burned family r.1)
refresh-once_example = refresh-once in_memory jwt 2 3 105 store refreshed_lem refl new_hash

other_hash : ¬ (stored.token_hash ≡ jwt.hash_token 104)
other_hash e = omega (arith, e)

refresh-reuse_example :
    let r = refresh in_memory jwt 2 104 store in
    (r.0 ≡ err (unauthorized "Refresh token reuse detected; session revoked")) × Burned 5 r.1
refresh-reuse_example =
    refresh-reuse in_memory jwt 2 104 store refl (inr (stored, refl, inr other_hash))
