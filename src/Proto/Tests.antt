-- ===== src/Proto/Tests.antt =====
-- A rollout's id: the round trip at one.
use nixfleet.Prelude.{◌≡◌, refl}
use nixfleet.Proto.Identity.{new, channel, channel_ref, new-channel}

new-channel_example :
    (channel (new "edge" "main@2") ≡ "edge") × (channel_ref (new "edge" "main@2") ≡ "main@2")
new-channel_example = new-channel "edge" "main@2" (refl, (refl, (refl, (refl, tt))))
