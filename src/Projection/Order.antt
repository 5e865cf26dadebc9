-- ===== src/Projection/Order.antt =====
-- The manifest does not depend on the order in which the map gives the hosts.
use mathlib.Core.List.{Permᴰ, Nodup, map}
use nixfleet.Prelude.{
  ◌≡◌, ◌≢◌, refl, sym, ap, ◌∙◌, false, Option, none, some, List, [], ◌∷◌, String, if◌then◌else◌,
  inl, inr, Option-cases, Bool-cases, arith, insert_by, sort_by, is_empty, string_eq,
}
use nixfleet.Prelude.HashMap.{HashMap, get}
use nixfleet.Prelude.Display.{sort, insert_sorted}
use nixfleet.Prelude.Sorting.{insert_by-swap, insert_sorted-swap, build, build-Perm}
use nixfleet.Proto.{
  Time, FleetResolved, Host, Wave, HostWave, RolloutManifest, DisruptionBudget, Selector,
}
use nixfleet.Proto as Proto
use nixfleet.Projection.{host_wave, host_waves, hostname_before, resolved_budgets, project_manifest}

abbrev name_of : String × Host → String
name_of p = p.0

module _ (waves : Option (List Wave)) (channel : String) where
  -- What a host adds to the sorted set.
  add_host : String × Host → List HostWave → List HostWave
  add_host (n, h) l = elim (host_wave waves channel n h) [
    | none ↦ l
    | some w ↦ insert_by hostname_before w l
  ]

  host_wave-hostname :
      (n : String) (h : Host) (w : HostWave) → host_wave waves channel n h ≡ some w → w.hostname ≡ n
  unfolding host_wave
  host_wave-hostname n h w p = ground arith

  add_host-none :
      (n : String) (h : Host) (l : List HostWave)
      → host_wave waves channel n h ≡ none
      → add_host (n, h) l ≡ l
  unfolding add_host
  add_host-none n h l p = rw (add_host, p) refl

  add_host-some :
      (n : String) (h : Host) (w : HostWave) (l : List HostWave)
      → host_wave waves channel n h ≡ some w
      → add_host (n, h) l ≡ insert_by hostname_before w l
  unfolding add_host
  add_host-some n h w l p = rw (add_host, p) refl

  add_host-swap :
      (a b : String × Host) (l : List HostWave)
      → name_of a ≢ name_of b
      → add_host a (add_host b l) ≡ add_host b (add_host a l)
  add_host-swap (m, g) (n, h) l d = elim (Option-cases (host_wave waves channel m g)) [
    | inl p ↦
        add_host-none m g (add_host (n, h) l) p ∙ sym (ap (add_host (n, h)) (add_host-none m g l p))
    | inr (v, p) ↦ elim (Option-cases (host_wave waves channel n h)) [
      | inl q ↦
          ap (add_host (m, g)) (add_host-none n h l q)
          ∙ sym (add_host-none n h (add_host (m, g) l) q)
      | inr (w, q) ↦
          let names : v.hostname ≢ w.hostname =
            λ e. d (sym (host_wave-hostname m g v p) ∙ e ∙ host_wave-hostname n h w q) in
          ap (add_host (m, g)) (add_host-some n h w l q)
          ∙ add_host-some m g v (insert_by hostname_before w l) p
          ∙ insert_by-swap (λ (x : HostWave). x.hostname) v w l names
          ∙ sym (add_host-some n h w (insert_by hostname_before v l) q)
          ∙ sym (ap (add_host (n, h)) (add_host-some m g v l p))
    ]
  ]

  sorted-build :
      (hosts : HashMap String Host)
      → sort_by hostname_before (host_waves waves channel hosts)
        ≡ build name_of add_host [] add_host-swap hosts
  unfolding sort_by host_waves build add_host
  sorted-build [] = refl
  sorted-build ((n, h) ∷ hosts) =
      let rest = sorted-build hosts in
      elim (Option-cases (host_wave waves channel n h)) [
        | inl p ↦ rw (build, add_host, sort_by, host_waves, p) rest
        | inr (w, p) ↦
            rw (build, add_host, sort_by, host_waves, p) (ap (insert_by hostname_before w) rest)
      ]

  sorted-Perm :
      (hs ks : HashMap String Host)
      → Permᴰ hs ks
      → Nodup (map name_of hs)
      → sort_by hostname_before (host_waves waves channel hs)
        ≡ sort_by hostname_before (host_waves waves channel ks)
  sorted-Perm hs ks d u =
      sorted-build hs
      ∙ build-Perm name_of add_host [] add_host-swap hs ks d u
      ∙ sym (sorted-build ks)

module _ (selector : Selector) where
  add_name : String × Host → List String → List String
  add_name (n, h) l = if Proto.matches selector n h then insert_sorted n l else l

  add_name-swap :
      (a b : String × Host) (l : List String)
      → name_of a ≢ name_of b
      → add_name a (add_name b l) ≡ add_name b (add_name a l)
  unfolding add_name
  add_name-swap (m, g) (n, h) l _ = elim (Bool-cases (Proto.matches selector m g)) [
    | inr p ↦ rw p refl
    | inl p ↦ elim (Bool-cases (Proto.matches selector n h)) [
      | inr q ↦ rw (p, q) refl
      | inl q ↦ rw (p, q) (insert_sorted-swap m n l)
    ]
  ]

  names-build :
      (hosts : HashMap String Host)
      → sort (Proto.resolve selector hosts) ≡ build name_of add_name [] add_name-swap hosts
  unfolding sort Proto.resolve build add_name
  names-build [] = refl
  names-build ((n, h) ∷ hosts) =
      let rest = names-build hosts in
      elim (Bool-cases (Proto.matches selector n h)) [
        | inl p ↦ rw p (ap (insert_sorted n) rest)
        | inr p ↦ rw p rest
      ]

  names-Perm :
      (hs ks : HashMap String Host)
      → Permᴰ hs ks
      → Nodup (map name_of hs)
      → sort (Proto.resolve selector hs) ≡ sort (Proto.resolve selector ks)
  names-Perm hs ks d u =
      names-build hs ∙ build-Perm name_of add_name [] add_name-swap hs ks d u ∙ sym (names-build ks)

resolved_budgets-Perm :
    (hs ks : HashMap String Host) (budgets : List DisruptionBudget)
    → Permᴰ hs ks
    → Nodup (map name_of hs)
    → resolved_budgets hs budgets ≡ resolved_budgets ks budgets
unfolding resolved_budgets
resolved_budgets-Perm hs ks [] d u = refl
resolved_budgets-Perm hs ks (b ∷ bs) d u =
    rw (names-Perm b.selector hs ks d u, resolved_budgets-Perm hs ks bs d u) refl

is_empty-insert_by :
    (w : HostWave) (l : List HostWave) → is_empty (insert_by hostname_before w l) ≡ false
unfolding insert_by
is_empty-insert_by w [] = refl
is_empty-insert_by w (v ∷ l) = elim (Bool-cases (hostname_before v w)) [
  | inl p ↦ rw (insert_by, p) refl
  | inr p ↦ rw (insert_by, p) refl
]

is_empty-sort_by : (l : List HostWave) → is_empty (sort_by hostname_before l) ≡ is_empty l
unfolding sort_by
is_empty-sort_by [] = refl
is_empty-sort_by (w ∷ l) = is_empty-insert_by w (sort_by hostname_before l)

-- The map of the hosts gives its entries in an order that the program does not choose: the manifest
-- of a channel is the same for every one of them, as are the errors. No two entries have one name.
pub project_manifest-Perm :
    (fleet : FleetResolved) (hosts : HashMap String Host) (channel hash : String) (at : Time)
    (ci_commit : Option String) (algorithm : String)
    → Permᴰ fleet.hosts hosts
    → Nodup (map (λ (p : String × Host). p.0) fleet.hosts)
    → project_manifest fleet channel hash at ci_commit algorithm
      ≡ project_manifest (record fleet { hosts = hosts }) channel hash at ci_commit algorithm
unfolding project_manifest
project_manifest-Perm fleet hosts channel hash at ci_commit algorithm d u =
    let waves = get fleet.waves channel in
    let sorted = sorted-Perm waves channel fleet.hosts hosts d u in
    let empty =
      sym (is_empty-sort_by (host_waves waves channel fleet.hosts))
      ∙ ap is_empty sorted
      ∙ is_empty-sort_by (host_waves waves channel hosts) in
    let budgets = resolved_budgets-Perm fleet.hosts hosts fleet.disruption_budgets d u in
    elim (Option-cases (get fleet.channels channel)) [
      | inl p ↦ rw (project_manifest, p) refl
      | inr (def, p) ↦ elim (Option-cases (get fleet.rollout_policies def.rollout_policy)) [
        | inl q ↦ rw (project_manifest, p, q) refl
        | inr (policy, q) ↦ rw (project_manifest, p, q, empty, sorted, budgets) refl
      ]
    ]
