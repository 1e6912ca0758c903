-- ===== src/Controller/Start.antt =====
-- controller/src/config.rs, controller/src/plan.rs and controller/src/run.rs: what a controller runs,
-- by its configuration. `connect` is what connecting to NATS yields.
use spawner.Prelude.{ℕ, List, [], ◌∷◌, ◌++◌, Option, none, some}
use spawner.Prelude.Result.{Result, ok, err, Outcome, returned, then_outcome}
use spawner.Prelude.Text.{Text, codes}
use spawner.Core.NatsConnection.{NatsConnectionSpec}
use spawner.Controller.Dns.Rname.{DnsOptions, DnsPlan, RnameError, no_at, not_ascii, plan_dns}

unfoldable pub default_port : ℕ
default_port = 53

unfoldable pub default_bind_ip : Text
default_bind_ip = codes "0.0.0.0"

pub record ControllerConfig : Type 0 where
  pub nats : NatsConnectionSpec
  pub scheduler : Option (Unit {0})
  pub dns : Option DnsOptions

pub record ControllerPlan (C : Type 0) : Type 0 where
  pub nats : C
  pub scheduler_plan : Option (Unit {0})
  pub dns_plan : Option DnsPlan

-- The contexts that `plan_dns` gives its errors.
unfoldable pub rname_error : RnameError → Text
rname_error no_at = codes "soa_email provided in configuration was not a valid email address."
rname_error not_ascii = codes "soa_email contained non-ascii characters."

abbrev of_rname : {A : Type 0} → Result RnameError A → Result Text A
of_rname (ok a) = ok a
of_rname (err e) = err (rname_error e)

pub data Loop : Type 0 where
  run_scheduler serve_dns : Loop

abbrev if_some : {A : Type 0} → Option A → Loop → List Loop
if_some none l = []
if_some (some a) l = l ∷ []

abbrev join : (List Loop → Text) → List Loop → Text
join failed [] = codes "No event loops selected."
join failed (l ∷ ls) = failed (l ∷ ls)

pub data Never : Type 0 where

module _ {C : Type 0} (from_ascii : Text → Option Text)
    (connect : NatsConnectionSpec → Outcome Text C) where
  unfoldable pub from_controller_config : ControllerConfig → Outcome Text (ControllerPlan C)
  from_controller_config config = then_outcome (connect config.nats) (λ nats.
      then_outcome (returned (of_rname (plan_dns from_ascii config.dns))) (λ dns.
        returned (ok (record { nats = nats; scheduler_plan = config.scheduler; dns_plan = dns }))))

  unfoldable pub loops : ControllerPlan C → List Loop
  loops plan = if_some plan.scheduler_plan run_scheduler ++ if_some plan.dns_plan serve_dns

  -- `failed` is the error of the loop that `try_join_all` ends with.
  unfoldable pub controller_main :
      Result Text Unit → Result Text ControllerConfig → (List Loop → Text) → Outcome Text Never
  controller_main traced configured failed = then_outcome (returned traced) (λ _.
      then_outcome (returned configured) (λ config.
        then_outcome (from_controller_config config)
          (λ plan. returned (err (join failed (loops plan))))))
