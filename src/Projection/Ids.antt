-- ===== src/Projection/Ids.antt =====
-- Which channels have a rollout, and under which id.
use nixfleet.Prelude.{
  ◌≡◌, ◌↔◌, ◌&&◌, refl, Bool, true, not, Option, some, is_some, List, [], ◌∷◌, String, append,
  unwrap_or, ok, arith, any, is_empty, string_eq,
}
use nixfleet.Prelude.HashMap.{HashMap, get}
use nixfleet.Proto.{Time, FleetResolved, Host, Wave, Channel, RolloutPolicy}
use nixfleet.Proto as Proto
use nixfleet.Projection.{host_wave, host_waves, project_manifest, compute_rollout_id_for_channel}

-- The host is on the channel and has a closure.
abbrev pub is_target : String → String × Host → Bool
is_target channel (_, h) = string_eq.beq h.channel channel && is_some h.closure_hash

host_wave-is_target :
    (waves : Option (List Wave)) (channel n : String) (h : Host)
    → is_some (host_wave waves channel n h) ≡ is_target channel (n, h)
unfolding host_wave
host_wave-is_target waves channel n h = ground arith

is_empty-host_waves :
    (waves : Option (List Wave)) (channel : String) (hosts : HashMap String Host)
    → is_empty (host_waves waves channel hosts) ≡ not (any (is_target channel) hosts)
unfolding host_waves any
is_empty-host_waves waves channel [] = refl
is_empty-host_waves waves channel ((n, h) ∷ hosts) =
    let rest = is_empty-host_waves waves channel hosts in
    let here = host_wave-is_target waves channel n h in ground arith

-- A channel's rollout id is a text exactly if the fleet is signed, it declares the channel and the
-- channel's policy, some host on the channel has a closure, and the text is the channel, the
-- separator and the commit, which is empty if the fleet names none.
pub compute_rollout_id_for_channel_iff :
    (fleet : FleetResolved) (hash channel text : String)
    → (compute_rollout_id_for_channel fleet hash channel ≡ ok (some text)) ↔ (
        (is_some fleet.meta.signed_at ≡ true)
        × ((def : Channel) × (get fleet.channels channel ≡ some def)
            × (is_some (get fleet.rollout_policies def.rollout_policy) ≡ true))
        × (any (is_target channel) fleet.hosts ≡ true)
        × (text ≡ append channel (append "@" (unwrap_or fleet.meta.ci_commit ""))))
unfolding compute_rollout_id_for_channel project_manifest Proto.new
compute_rollout_id_for_channel_iff fleet hash channel text =
    let targets = is_empty-host_waves (get fleet.waves channel) channel fleet.hosts in ground arith
