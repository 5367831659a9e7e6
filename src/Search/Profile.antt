-- ===== src/Search/Profile.antt =====
-- src/search/profile.rs and the enum of src/power/controller.rs: how many keys a dispatch covers in each
-- power mode.
use puzzle71_solver.Prelude.{ℕ, ◌*◌, List, [], ◌∷◌}

pub data PowerMode : Type 0 where
  eco balanced high full auto : PowerMode

pub record DispatchProfile : Type 0 where
  pub threads : ℕ
  pub steps : ℕ

unfoldable pub batch_keys : DispatchProfile → ℕ
batch_keys p = p.threads * p.steps

pub all_power_modes : List PowerMode
all_power_modes = eco ∷ balanced ∷ high ∷ full ∷ auto ∷ []

unfoldable pub dispatch_profile : PowerMode → DispatchProfile
dispatch_profile eco = record { threads = 1024; steps = 128 }
dispatch_profile balanced = record { threads = 2048; steps = 1024 }
dispatch_profile auto = record { threads = 2048; steps = 1024 }
dispatch_profile high = record { threads = 4096; steps = 128 }
dispatch_profile full = record { threads = 4096; steps = 256 }
