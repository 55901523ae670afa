-- ===== src/Svcctl/Lifecycle/New.antt =====
-- The runtime state of a service that `NewService` of
-- go/src/dropbox/build_tools/svcctl/service.go made.
use dbx_build_tools.Base.{ℕ, ◌≡◌, sym, ap, Bool, none, List, Str}
use dbx_build_tools.Base.Result.{ok, >>=-ok_inv}
use dbx_build_tools.Svcctl.Proto.{ServiceType, ServiceProto, stopped}
use dbx_build_tools.Svcctl.Service.{
  ServiceEnv, no_channel, ServiceDef, resolve, sort_checks, full_paths, service_def, new_service,
}

pub record IsNew (kind : ServiceType) (d : ServiceDef) : Type 0 where
  pub type : d.service_type ≡ kind
  pub status : d.status ≡ stopped
  pub process : d.process ≡ none
  pub wait_ch : d.wait_ch ≡ no_channel

pub new_service-IsNew :
    (env : ServiceEnv) (svc : ServiceProto) (services : List (Str × ℕ)) (verbose : Bool)
    (d : ServiceDef)
    → new_service env svc services verbose ≡ ok d
    → IsNew svc.type d
unfolding new_service service_def
new_service-IsNew env svc services verbose d made =
    let (deps, r, h1) = >>=-ok_inv (resolve services svc.dependencies) _ made in
    let (checks, c, h2) = >>=-ok_inv (sort_checks env svc.health_checks) _ h1 in
    let (files, f, h3) = >>=-ok_inv (full_paths env.paths svc.version_files) _ h2 in
    let same : service_def env svc verbose deps checks files ≡ d = cc (h3) in
    record {
      type = ap (λ (x : ServiceDef). x.service_type) (sym same);
      status = ap (λ (x : ServiceDef). x.status) (sym same);
      process = ap (λ (x : ServiceDef). x.process) (sym same);
      wait_ch = ap (λ (x : ServiceDef). x.wait_ch) (sym same);
    }
