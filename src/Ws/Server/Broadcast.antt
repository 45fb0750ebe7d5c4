-- ===== src/Ws/Server/Broadcast.antt =====
-- Broadcasts and writes: what they do to the ring and the log, and what they leave alone.
use robot_arm.Base.{
  ℕ, ◌≡◌, refl, Bool, true, false, ℤ, pos, arith, ◌==◌, inl, inr, Bool-cases, ltb_ℤ,
}
use robot_arm.Ws.Queue.{Ptr}
use robot_arm.Ws.Lws.{Lws, Msg}
use robot_arm.Ws.Server.{Server, update, ws_write, ws_broadcast, ws_broadcast_int, int_msg}

module _ (lws : Lws) where
  open lws use {Ring, insert, consume_and_update_oldest_tail}

  -- A broadcast touches the ring and the log alone.
  pub broadcast-keeps :
      (s : Server Ring) (allocated : Bool) (n : ℤ)
      → ((ws_broadcast_int lws s allocated n).0.connections ≡ s.connections)
        × ((ws_broadcast_int lws s allocated n).0.mem ≡ s.mem)
        × ((ws_broadcast_int lws s allocated n).0.pss_list ≡ s.pss_list)
        × ((ws_broadcast_int lws s allocated n).0.sessions ≡ s.sessions)
  unfolding ws_broadcast_int ws_broadcast
  broadcast-keeps s false n = (refl, refl, refl, refl)
  broadcast-keeps s true n = elim (Bool-cases ((insert s.ring (int_msg n)).1 == 0)) [
    | inl full ↦ rw full (refl, refl, refl, refl)
    | inr room ↦ rw room (refl, refl, refl, refl)
  ]

  -- A write moves the ring and the writer's tail, and changes no other thing but the log.
  pub write-keeps :
      (s : Server Ring) (pss : Ptr) (wsi : ℕ) (msg : Msg) (written : ℤ)
      → ((ws_write lws s pss wsi msg written).0.connections ≡ s.connections)
        × ((ws_write lws s pss wsi msg written).0.mem ≡ s.mem)
        × ((ws_write lws s pss wsi msg written).0.pss_list ≡ s.pss_list)
        × ((q : Ptr)
            → ((ws_write lws s pss wsi msg written).0.sessions q).culled ≡ (s.sessions q).culled)
  unfolding ws_write
  write-keeps s pss wsi msg written = elim (Bool-cases (ltb_ℤ written (pos msg.len))) [
    | inl short ↦ rw short (refl, refl, refl, λ q. refl)
    | inr whole ↦ rw whole (refl, refl, refl, λ q. kept q _)
  ]
    where
      kept :
          (q : Ptr) (tail : ℕ)
          → (update s.sessions pss (record (s.sessions pss) { tail = tail }) q).culled
            ≡ (s.sessions q).culled
      kept q tail = ground arith
