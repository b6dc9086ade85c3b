-- ===== src/Gpu/Types.antt =====
-- The data of backend/app/gpu/types.py.
--
-- Memory, load and temperature are whole numbers here, of MiB, percent and degrees; the source has
-- floats. The time of creation of a record is left out.
use enterprise_ai_agent.Prelude.{ℕ, Bool, Option, List, String}
use enterprise_ai_agent.Prelude.TextDict.{TextDict}
use enterprise_ai_agent.Workflow.Node.{Value}

pub data GpuDeviceStatus : Type 0 where
  available busy offline unknown : GpuDeviceStatus

pub record GpuDeviceState : Type 0 where
  pub index : ℕ
  pub name : String
  pub status : GpuDeviceStatus
  pub memory_used_mib : Option ℕ
  pub memory_total_mib : Option ℕ
  pub memory_free_mib : Option ℕ
  pub utilization_percent : Option ℕ
  pub temperature_c : Option ℕ
  pub allocated_mib : ℕ
  pub allocation_count : ℕ

pub record GpuAllocationRecord : Type 0 where
  pub allocation_id : String
  pub gpu_index : ℕ
  pub memory_mib : ℕ
  pub owner : String
  pub purpose : String
  pub metadata : TextDict Value

pub record GpuAllocationRequest : Type 0 where
  pub memory_mib : ℕ
  pub gpu_count : ℕ
  pub owner : String
  pub purpose : String
  pub preferred_indices : List ℕ
  pub metadata : TextDict Value

pub record GpuAllocationResult : Type 0 where
  pub success : Bool
  pub allocation_ids : List String
  pub gpu_indices : List ℕ
  pub message : String
