-- ===== src/Svcctl/Proto.antt =====
-- The messages of go/src/dropbox/proto/build_tools/svclib/service.pb.go that the controller reads.
-- A required field is a plain value; an optional one that a getter reads has the getter's default.
use dbx_build_tools.Base.{Bool, Option, List, Str}

pub record CommandProto : Type 0 where
  pub cmd : Str
  pub env_vars : List (Str × Str)

pub data HealthCheckType : Type 0 where
  unknown command http : HealthCheckType

pub record HealthCheck : Type 0 where
  pub type : HealthCheckType
  pub cmd : Option CommandProto
  -- The address of the HTTP check.
  pub http_health_check : Option Str

pub data ServiceType : Type 0 where
  daemon task : ServiceType

pub data StatusCode : Type 0 where
  stopped error starting started waiting_for_dependent completed stopping : StatusCode

pub record ServiceProto : Type 0 where
  pub service_name : Str
  pub launch_cmd : CommandProto
  pub health_checks : List HealthCheck
  pub dependencies : List Str
  pub stop_cmd : Option CommandProto
  pub type : ServiceType
  pub verbose : Bool
  pub owner : Str
  pub version_files : List Str
