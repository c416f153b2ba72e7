-- ===== src/Payroll/Requests.antt =====
-- The requests that write slips and runs, served one after the other.
use crossbill_back.Base.{ℕ, List, [], ◌∷◌, Option, String}
use crossbill_back.Base.Http.{Result, ok, err}
use crossbill_back.Mongo.{Mongo}
use crossbill_back.Audit.{DocId}
use crossbill_back.Payroll.Defs.{SalarySlip, CreateSlipDto, UpdateSlipDto, Store}
use crossbill_back.Payroll.Slips.{create_slip, update_slip, get_slip, remove_slip}
use crossbill_back.Payroll.Runs.{run_payroll, finalise_run}

-- A request, with the organisation and the user it comes from, and the instant and the fresh id that
-- it is served with.
pub data Request : Type 0 where
  create : ℕ → DocId → DocId → Option DocId → CreateSlipDto → Request
  update : ℕ → DocId → Option DocId → DocId → UpdateSlipDto → Request
  get : ℕ → DocId → DocId → Request
  remove : DocId → Option DocId → DocId → Request
  run : DocId → DocId → Option DocId → ℕ → Request
  finalise : ℕ → DocId → DocId → ℕ → Request

-- The store after a request, which a refusal leaves as it was.
abbrev pub store_after {ℓ} : {A : Type ℓ} → Store → Result (A × Store) → Store
store_after s (ok r) = r.1
store_after s (err e) = s

abbrev pub alone_after : Store → Result Store → Store
alone_after s (ok t) = t
alone_after s (err e) = s

module _ (db : Mongo) (render : SalarySlip → Option String) where
  unfoldable pub serve_one : Request → Store → Store
  serve_one (create now i org user dto) s =
      store_after s (create_slip db render now i org user dto s)
  serve_one (update now org user i dto) s =
      store_after s (update_slip db render now org user i dto s)
  serve_one (get now org i) s = store_after s (get_slip db render now org i s)
  serve_one (remove org user i) s = alone_after s (remove_slip db render org user i s)
  serve_one (run i org user period) s = store_after s (run_payroll db i org user period s)
  serve_one (finalise now org user period) s = store_after s (finalise_run db now org user period s)

  unfoldable pub serve : List Request → Store → Store
  serve [] s = s
  serve (q ∷ qs) s = serve qs (serve_one q s)
