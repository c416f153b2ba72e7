-- ===== src/Audit.antt =====
-- The audit trail: api/src/modules/audit/audit.service.ts and its event log. The free-form `meta` is
-- left out, since nothing reads it.
use crossbill_back.Base.{ℕ, List, [], Option, some, String}
use crossbill_back.Mongo.{Mongo, Written, written, duplicate}

-- An `ObjectId`: only ever compared.
abbrev pub DocId : Type 0
DocId = ℕ

pub record AuditEntry : Type 0 where
  pub action : String
  pub org_id : Option DocId
  pub user_id : Option DocId
  pub resource_id : Option DocId

abbrev pub EventLog : Type 0
EventLog = List AuditEntry

-- The log after a write, whose failure is swallowed.
abbrev kept : EventLog → Written AuditEntry → EventLog
kept events (written events') = events'
kept events (duplicate k) = events

unfoldable pub log : Mongo → AuditEntry → EventLog → EventLog
log db entry events = kept events (db.create [] entry events)

-- The entry of an action within an organisation, on a resource.
abbrev pub entry : String → DocId → Option DocId → DocId → AuditEntry
entry action org user resource = record {
  action = action;
  org_id = some org;
  user_id = user;
  resource_id = some resource;
}
