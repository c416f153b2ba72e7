-- ===== src/Auth/Defs.antt =====
-- The refresh tokens, their issue and their rotation. Collections are listed newest first, so that
-- `findOne(…).sort({ createdAt: -1 })` is `find_one`. JWT and SHA-256 are the record `Jwt`.
use crossbill_back.Base.{
  ℕ, ◌+◌, ◌*◌, Bool, true, false, not, List, [], Option, none, some, String, ◌==◌, ◌&&◌, ◌||◌,
  if◌then◌else◌, get_or,
}
use crossbill_back.Base.Http.{Result, ok, err, unauthorized}
use crossbill_back.Mongo.{Mongo, Written, written, duplicate}
use crossbill_back.Audit.{DocId}

pub data Role : Type 0 where
  owner admin member accountant hr_admin manager employee platform_admin : Role

pub record User : Type 0 where
  pub id : DocId
  pub org_id : Option DocId
  pub role : Option Role
  pub email : String

pub record JwtPayload : Type 0 where
  pub sub : DocId
  pub org_id : DocId
  pub role : Role
  pub email : String

-- A token is only handed on, signed and hashed.
abbrev pub Token : Type 0
Token = ℕ

pub record TokenPair : Type 0 where
  pub access_token : Token
  pub refresh_token : Token

pub record RefreshToken : Type 0 where
  pub user_id : DocId
  pub family_id : DocId
  pub token_hash : ℕ
  pub revoked : Bool
  pub expires_at : ℕ

-- Signing at an instant, and what a refresh token that is still valid then says.
pub record Jwt : Type 0 where
  pub sign_access : ℕ → JwtPayload → Token
  pub sign_refresh : ℕ → JwtPayload → DocId → Token
  pub verify_refresh : ℕ → Token → Option (JwtPayload × DocId)
  pub hash_token : Token → ℕ
  pub refresh_ttl : ℕ

pub record Store : Type 0 where
  pub users : List User
  pub refresh_tokens : List RefreshToken

abbrev pub of_family : DocId → RefreshToken → Bool
of_family family k = k.family_id == family

abbrev pub of_user_family : DocId → DocId → RefreshToken → Bool
of_user_family user family k = k.user_id == user && k.family_id == family

abbrev pub live_of : DocId → RefreshToken → Bool
live_of user k = k.user_id == user && not k.revoked

abbrev pub revoke : RefreshToken → RefreshToken
revoke k = record k { revoked = true }

abbrev or_same : List RefreshToken → Written RefreshToken → List RefreshToken
or_same xs (written ys) = ys
or_same xs (duplicate key) = xs

abbrev pub by_id : DocId → User → Bool
by_id i u = u.id == i

module _ (db : Mongo) (jwt : Jwt) where
  -- The record of a token that is issued.
  abbrev pub issued : ℕ → JwtPayload → DocId → RefreshToken
  issued now payload family = record {
    user_id = payload.sub;
    family_id = family;
    token_hash = jwt.hash_token (jwt.sign_refresh now payload family);
    revoked = false;
    expires_at = now + jwt.refresh_ttl * 1000;
  }

  unfoldable pub issue_tokens : ℕ → JwtPayload → DocId → Store → TokenPair × Store
  issue_tokens now payload family s = (
    record {
      access_token = jwt.sign_access now payload;
      refresh_token = jwt.sign_refresh now payload family;
    },
    record s {
      refresh_tokens =
          or_same s.refresh_tokens (db.create [] (issued now payload family) s.refresh_tokens);
    },
  )

  abbrev pub revoke_family : DocId → Store → Store
  revoke_family family s = record s {
    refresh_tokens = db.update_many (of_family family) revoke s.refresh_tokens;
  }

  -- `!stored || stored.revoked || stored.tokenHash !== hash`.
  abbrev pub is_reuse : Token → Option RefreshToken → Bool
  is_reuse token none = true
  is_reuse token (some k) = k.revoked || not (k.token_hash == jwt.hash_token token)

  -- The identity of a user, as the database has it now.
  abbrev pub live_identity : JwtPayload → User → JwtPayload
  live_identity payload user = record {
    sub = user.id;
    org_id = get_or user.org_id payload.org_id;
    role = get_or user.role owner;
    email = user.email;
  }

  abbrev pub reissue : ℕ → JwtPayload → DocId → Option User → Store → Result TokenPair × Store
  reissue now payload family none s = (err (unauthorized "User no longer exists"), s)
  reissue now payload family (some user) s =
      let (pair, t) = issue_tokens now (live_identity payload user) family s in (ok pair, t)

  -- `refresh`, once the token is verified.
  unfoldable pub rotate : ℕ → Token → JwtPayload → DocId → Store → Result TokenPair × Store
  rotate now token payload family s =
      let newest = db.find_one (of_user_family payload.sub family) s.refresh_tokens in
      let spent : Store = record s {
        refresh_tokens = db.update_one (of_user_family payload.sub family) revoke s.refresh_tokens;
      } in
      if is_reuse token newest
      then (
        err (unauthorized "Refresh token reuse detected; session revoked"),
        revoke_family family s,
      )
      else reissue now payload family (db.find_one (by_id payload.sub) s.users) spent

  -- The store stays changed when `refresh` throws after a write.
  unfoldable pub refresh : ℕ → Token → Store → Result TokenPair × Store
  refresh now token s = elim (jwt.verify_refresh now token) [
    | none ↦ (err (unauthorized "Invalid refresh token"), s)
    | some claims ↦ rotate now token claims.0 claims.1 s
  ]

  unfoldable pub logout : DocId → Option DocId → Store → Store
  logout user none s = record s {
    refresh_tokens = db.update_many (live_of user) revoke s.refresh_tokens;
  }
  logout user (some family) s = revoke_family family s
