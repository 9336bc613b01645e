-- ===== src/Engine/Sidecar/Again.antt =====
-- src/engine/aggregate.rs: a second start finds what the first one built.
use mallard_cube.Engine.Sidecar.{Sidecar}
