-- ===== src/Heartbeats/Cadence.antt =====
-- How often agent_peer/presence.py writes heartbeats.
use hermes_walkie_talkie.Prelude.{
  ℕ, ◌+◌, ◌-◌, ◌*◌, ◌≤◌, String, ◌≡◌, refl, inl, inr, Bool, true, false, Option, some, List, [],
  ◌∷◌, arith, Bool-cases,
}
use hermes_walkie_talkie.Errors.{Result, ok, err}
use hermes_walkie_talkie.Models.Peers.{PeerRecord}
use hermes_walkie_talkie.Registry.{Json, File}
use hermes_walkie_talkie.Heartbeats.{PresenceManager, too_early, new_manager, heartbeat, after_beat}

-- A call of `heartbeat()` without force: the two clocks, and the registry's files at that time.
pub record Beat (T : Type 0) : Type 0 where
  pub now : ℕ
  pub stamp : String
  pub files : List (File T)

abbrev pub count_write : Result Bool → ℕ
count_write (ok true) = 1
count_write _ = 0

-- How many of the calls wrote.
abbrev pub writes : {T : Type 0} → Json T → PresenceManager → List (Beat T) → ℕ
writes j m [] = 0
writes j m (b ∷ bs) =
    count_write (heartbeat j b.now b.stamp false m b.files).0
    + writes j (heartbeat j b.now b.stamp false m b.files).1 bs

-- The monotonic clock between two instants.
abbrev pub Within : {T : Type 0} → ℕ → ℕ → List (Beat T) → Type 0
Within start end [] = start ≤ end
Within start end (b ∷ bs) = (start ≤ b.now) × Within b.now end bs

-- What a call that is not forced does to the time of the last write.
pub data BeatCase (m : PresenceManager) (now : ℕ) (out : Result Bool) (after : PresenceManager)
    : Type 0 where
  unwritten : count_write out ≡ 0 → after ≡ m → BeatCase m now out after
  wrote :
      count_write out ≡ 1
      → too_early m.last_write now m.interval ≡ false
      → after ≡ record m { last_write = some now }
      → BeatCase m now out after

module _ {T : Type 0} (j : Json T) where
  after_beat-cases :
      (now : ℕ) (m : PresenceManager) (o : Result (Option PeerRecord) × List (File T))
      → too_early m.last_write now m.interval ≡ false
      → BeatCase m now (after_beat j now m o).0 (after_beat j now m o).1
  unfolding after_beat
  after_beat-cases now m (err e, fs) h = unwritten refl refl
  after_beat-cases now m (ok r, fs) h = wrote refl h refl

  beat-cases :
      (b : Beat T) (m : PresenceManager)
      → BeatCase m b.now
          (heartbeat j b.now b.stamp false m b.files).0
          (heartbeat j b.now b.stamp false m b.files).1
  unfolding heartbeat
  beat-cases b m = elim (Bool-cases (too_early m.last_write b.now m.interval)) [
    | inl e ↦ rw e (unwritten refl refl)
    | inr e ↦ rw e (after_beat-cases b.now m _ e)
  ]

  not_early :
      (m : PresenceManager) (now t : ℕ)
      → m.last_write ≡ some t
      → too_early m.last_write now m.interval ≡ false
      → m.interval ≤ now - t
  not_early m now t h late =
      let k : too_early (some t) now m.interval ≡ false = rw h at late in ground arith

  Within-le : (start end : ℕ) (bs : List (Beat T)) → Within start end bs → start ≤ end
  Within-le start end [] w = w
  Within-le start end (b ∷ bs) w = omega (arith, w.0, Within-le b.now end bs w.1)

  pays : (i n now end t : ℕ) → i ≤ now - t → now ≤ end → i * n ≤ end - now → i * (1 + n) ≤ end - t
  pays i n now end t a b c = grind arith

  unpaid : (i n x : ℕ) → i * n ≤ x → i * (0 + n) ≤ x
  unpaid i n x h = grind arith

  pays_first :
      (i n now end start : ℕ)
      → start ≤ now
      → now ≤ end
      → i * n ≤ end - now
      → i * (1 + n) ≤ i + (end - start)
  pays_first i n now end start a b c = grind arith

  -- The time since the last write pays for the writes to come.
  writes-le :
      (m : PresenceManager) (bs : List (Beat T)) (start end t : ℕ)
      → m.last_write ≡ some t
      → t ≤ start
      → Within start end bs
      → m.interval * writes j m bs ≤ end - t
  writes-le m [] start end t h le w = grind arith
  writes-le m (b ∷ bs) start end t h le w = elim (beat-cases b m) [
    | unwritten e k ↦
        rw (e, k)
          (unpaid m.interval (writes j m bs) (end - t)
            (writes-le m bs b.now end t h (omega (arith, w.0)) w.1))
    | wrote e late k ↦
        let m' : PresenceManager = record m { last_write = some b.now } in
        let rest = writes-le m' bs b.now end b.now refl (omega arith) w.1 in
        rw (e, k)
          (pays m.interval (writes j m' bs) b.now end t (not_early m b.now t h late)
            (Within-le b.now end bs w.1) rest)
  ]

  widen : (a b c : ℕ) → c ≤ a → a ≤ b → c ≤ b
  widen a b c h k = omega arith

  -- A new manager's first write is free, and each further one costs an interval: the calls of
  -- `heartbeat()` without force between two instants write at most once, and once more for each
  -- interval that has passed, whatever the registry holds at each call.
  pub writes_bound :
      (peer_id : String) (interval start end : ℕ) (bs : List (Beat T))
      → Within start end bs
      → interval * writes j (new_manager peer_id interval) bs ≤ interval + (end - start)
  unfolding new_manager
  writes_bound p i start end [] w = grind arith
  writes_bound p i start end (b ∷ bs) w = elim (beat-cases b (new_manager p i)) [
    | unwritten e k ↦
        rw (e, k)
          (unpaid i (writes j (new_manager p i) bs) (i + (end - start)) (
            widen (i + (end - b.now)) _ _ (writes_bound p i b.now end bs w.1) (omega (arith, w.0))))
    | wrote e late k ↦
        let m' : PresenceManager = record (new_manager p i) { last_write = some b.now } in
        let rest = writes-le m' bs b.now end b.now refl (omega arith) w.1 in
        rw (e, k)
          (pays_first i (writes j m' bs) b.now end start (w.0) (Within-le b.now end bs w.1) rest)
  ]
