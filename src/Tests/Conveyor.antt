-- ===== src/Tests/Conveyor.antt =====
-- A belt that takes coal out of a chest, and a wire between a belt and a switch.
use voxelcraft_ai.Prelude.{
  Bool, ℕ, ◌≡◌, refl, subst, ◌≤◌, Bool-cases, inl, inr, true, false, ◌==◌, none, some, [], ◌∷◌,
  if◌then◌else◌, arith, lookup, get,
}
use mathlib.Core.Option.{some-injective}
use voxelcraft_ai.Kernel.Vec.{Vec3i, same_pos, same_pos-path}
use voxelcraft_ai.Kernel.Places.{seen}
use voxelcraft_ai.Contracts.Container.{Container}
use voxelcraft_ai.Ground.{ItemEntity, Ground, is_expired, cleanup_expired}
use voxelcraft_ai.Ground.Index.{IsIndexed}
use voxelcraft_ai.Ground.Cleanup.{cleanup_expired_lem}
use voxelcraft_ai.Conveyor.Power.{Env, enabled}
use voxelcraft_ai.Conveyor.Power.Rules.{IsDecided, enabled-IsDecided}
use voxelcraft_ai.Conveyor.Belt.{Belt}
use voxelcraft_ai.Conveyor.Belt.Holdings.{IsSound, holdings}
use voxelcraft_ai.Conveyor.World.{Blocks, system_conveyors, system_conveyors-Keeps}
use voxelcraft_ai.Tests.Data.{origin}

abbrev at : ℕ → Vec3i
at x = record { x = x; y = 0; z = 0 }

-- A wire stands beside the belt at the origin, and a switch beside the wire.
abbrev wired : Env
wired = record {
  block_name =
      λ p. if same_pos p (at 1) then "WIRE" else if same_pos p (at 2) then "SWITCH" else "AIR";
  switch_on = λ p. true;
  sensor_on = λ p. false;
}

enabled-IsDecided_example :
    (on : Bool) × (enabled wired origin 1024 ≡ some on) × IsDecided wired origin 1024 on
enabled-IsDecided_example = enabled-IsDecided wired origin 1024 (omega arith)

abbrev chest : Container
chest = record {
  type = "CHEST";
  pos = origin;
  inventory = ("COAL", 3) ∷ [];
  reserved = [];
  owed = [];
}

-- A belt beside the chest, which moves away from it.
abbrev blocks : Blocks
blocks = record {
  block_at = λ p. if same_pos p (at 1) then 5 else 0;
  block_name = λ b. if b == 5 then "CONVEYOR" else "AIR";
  block_solid = λ b. b == 5;
  conveyor_id = some 5;
  switches = λ p. false;
  conveyors = (at 1, record { dx = 1; dz = 0 }) ∷ [];
}

abbrev belt : Belt
belt = record {
  ground = record { items = []; items_at = λ p. []; next_item_num = 0 };
  containers = λ p. if same_pos p origin then some chest else none;
}

nothing_lies : IsIndexed belt.ground
unfolding lookup
nothing_lies = record { listed = λ id p. refl; owned = λ id e h. cc h; free = λ n a b. refl }

only_chest : (p : Vec3i) (c : Container) → belt.containers p ≡ some c → chest ≡ c
only_chest p c h = elim (Bool-cases (same_pos p origin)) [
  | inl hit ↦ some-injective _ _ (rw hit at h)
  | inr miss ↦ cc (rw miss at h)
]

belt-IsSound : IsSound "COAL" (origin ∷ []) belt
unfolding seen get lookup holdings
belt-IsSound = record {
  indexed = nothing_lies;
  distinct = tt;
  covered = λ p c h. ground (arith, h, same_pos-path p origin);
  bounded = omega arith;
  backed = λ p c h.
      subst (λ (x : Container). get x.reserved "COAL" ≤ get x.inventory "COAL") (only_chest p c h)
        (omega arith);
}

system_conveyors-Keeps_example :
    IsSound "COAL" (origin ∷ []) (system_conveyors 30 blocks belt)
    × (holdings "COAL" (origin ∷ []) (system_conveyors 30 blocks belt)
        ≡ holdings "COAL" (origin ∷ []) belt)
unfolding seen
system_conveyors-Keeps_example =
    system_conveyors-Keeps 30 blocks "COAL" (origin ∷ []) belt (refl, tt) belt-IsSound (omega arith)

abbrev coal : ℕ → ItemEntity
coal expires = record {
  entity_id = "IT000001";
  pos = origin;
  item = "COAL";
  count = 2;
  created_tick = 1;
  expires_tick = expires;
}

abbrev old_coal : Ground
old_coal = record {
  items = ("IT000001", coal 9) ∷ [];
  items_at = λ p. if same_pos p origin then "IT000001" ∷ [] else [];
  next_item_num = 1;
}

cleanup_expired_lem_example : lookup "IT000001" (cleanup_expired 10 old_coal).items ≡ (
    if is_expired 10 (lookup "IT000001" old_coal.items)
    then none
    else lookup "IT000001" old_coal.items)
cleanup_expired_lem_example = cleanup_expired_lem 10 old_coal "IT000001"
