-- ===== src/Common/Codes.antt =====
-- `vv_status_t` of include/vibevoice/types.h.

pub data Status : Type 0 where
  ok : Status
  invalid_arg null_ptr out_of_memory not_found io parse unsupported overflow shape_mismatch : Status
  kv_pool_exhausted cancelled busy : Status
  cuda cuda_oom cuda_launch trt trt_build trt_runtime : Status
  model_format model_version weight_missing audio_format audio_resample : Status
