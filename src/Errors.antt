-- ===== src/Errors.antt =====
-- testrange/exceptions.py: the exception classes, with the built-in ones that the library raises.
-- An exception is its class and the names that its message quotes; the wording is left out.
use test_range.Prelude.{String, List, Result, err}

pub data ErrorClass : Type 0 where
  test_range_error plan_error graph_error duplicate_node_error dangling_dependency_error :
      ErrorClass
  self_dependency_error graph_cycle_error preflight_error cache_error cache_miss_error : ErrorClass
  driver_error profile_error guest_agent_error state_error state_locked_error : ErrorClass
  communicator_error communicator_already_bound_error gateway_error builder_error : ErrorClass
  build_not_ready_error orchestrator_error build_failed_error build_timeout_error : ErrorClass
  build_required_error : ErrorClass
  exception ill_typed value_error type_error key_error assertion_error : ErrorClass

pub record Error : Type 0 where
  pub class : ErrorClass
  pub about : List String

abbrev pub raise : {A : Type 0} → ErrorClass → List String → Result Error A
raise class about = err (record { class = class; about = about })
