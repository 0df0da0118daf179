-- ===== src/MuxServer/Converge.antt =====
-- mux_server.go, `UpdateConfigs`: once `Serve` has worked off its commands, the server runs the
-- queues of the new configuration.
use pepperbus.Base.{
  ◌≡◌, refl, ap, ◌∙◌, subst, sym, List, [], ◌∷◌, ◌++◌, Bool, false, Option, none, some, arith,
  if◌then◌else◌, All, inl, inr, Option-cases, Bool-cases, ℕ, suc,
}
use pepperbus.Base.Text.{Text, text_eq, text_eq_iff}
use pepperbus.Base.Map.{Map, lookup, lookup-insert, lookup-delete, is_some, Distinct}
use pepperbus.Config.{QueueConfig}
use pepperbus.MuxServer.{
  MuxServer, Cmd, queue_add, queue_del, serve_cmd, serve, for_entry, updates, removals,
  update_configs,
}

-- A configuration is stored under its own queue name.
abbrev pub Keyed : Map QueueConfig → Type 0
Keyed = All (λ (e : Text × QueueConfig). e.1.queue_name ≡ e.0)

-- What a command does to the configuration of the queue `n`.
abbrev effect : Text → Cmd → Option QueueConfig → Option QueueConfig
effect n (queue_add q) none = if text_eq q.queue_name n then some q else none
effect n (queue_add q) (some old) = some old
effect n (queue_del q) o = if text_eq q.queue_name n then none else o

track : Text → List Cmd → Option QueueConfig → Option QueueConfig
track n [] o = o
track n (c ∷ cs) o = track n cs (effect n c o)

serve_cmd-lookup :
    (disabled : Text → Bool) (c : Cmd) (ms : MuxServer) (n : Text)
    → lookup n (serve_cmd disabled c ms).queue_config ≡ effect n c (lookup n ms.queue_config)
unfolding serve_cmd
serve_cmd-lookup disabled (queue_add q) ms n =
    ground (arith, lookup-insert q.queue_name n q ms.queue_config, text_eq_iff q.queue_name n)
serve_cmd-lookup disabled (queue_del q) ms n = lookup-delete q.queue_name n ms.queue_config

serve-lookup :
    (disabled : ℕ → Text → Bool) (cs : List Cmd) (ms : MuxServer) (n : Text)
    → lookup n (serve disabled cs ms).queue_config ≡ track n cs (lookup n ms.queue_config)
unfolding serve track
serve-lookup disabled [] ms n = refl
serve-lookup disabled (c ∷ cs) ms n =
    serve-lookup (λ i. disabled (suc i)) cs (serve_cmd (disabled 0) c ms) n
    ∙ ap (track n cs) (serve_cmd-lookup (disabled 0) c ms n)

track-append :
    (n : Text) (cs ds : List Cmd) (o : Option QueueConfig)
    → track n (cs ++ ds) o ≡ track n ds (track n cs o)
unfolding track
track-append n [] ds o = refl
track-append n (c ∷ cs) ds o = track-append n cs ds (effect n c o)

module _ (deep_equal : QueueConfig → QueueConfig → Bool) where
  -- The configuration that a queue ends up with: the old one, if nothing changed.
  abbrev pub settled : QueueConfig → Option QueueConfig → QueueConfig
  settled conf none = conf
  settled conf (some old) = if deep_equal conf old then old else conf

  entry_hit :
      (conf : QueueConfig) (o : Option QueueConfig) (n : Text)
      → conf.queue_name ≡ n
      → track n (for_entry deep_equal conf o) o ≡ some (settled conf o)
  unfolding track
  entry_hit conf none n e = ground (arith, text_eq_iff conf.queue_name n)
  entry_hit conf (some old) n e = ground (arith, text_eq_iff conf.queue_name n)

  entry_miss :
      (conf : QueueConfig) (at o : Option QueueConfig) (n : Text)
      → text_eq conf.queue_name n ≡ false
      → track n (for_entry deep_equal conf at) o ≡ o
  unfolding track
  entry_miss conf none none n h = ground arith
  entry_miss conf none (some c) n h = ground arith
  entry_miss conf (some old) none n h = ground arith
  entry_miss conf (some old) (some c) n h = ground arith

  updates_miss :
      (confs old : Map QueueConfig) (o : Option QueueConfig) (n : Text)
      → Keyed confs
      → lookup n confs ≡ none
      → track n (updates deep_equal confs old) o ≡ o
  unfolding updates lookup
  updates_miss [] old o n keyed e = unfold track in refl
  updates_miss ((name, conf) ∷ rest) old o n (own, keyed) e = elim (Bool-cases (text_eq name n)) [
    | inl hit ↦ absurd (ground (arith, hit, e))
    | inr miss ↦
        track-append n (for_entry deep_equal conf (lookup name old)) _ o
        ∙ ap (track n _) (entry_miss conf (lookup name old) o n (rw own miss))
        ∙ updates_miss rest old o n keyed (rw miss at e)
  ]

  updates_hit :
      (confs old : Map QueueConfig) (n : Text) (conf : QueueConfig)
      → Keyed confs
      → Distinct confs
      → lookup n confs ≡ some conf
      → track n (updates deep_equal confs old) (lookup n old) ≡ some (settled conf (lookup n old))
  unfolding updates lookup
  updates_hit [] old n conf keyed distinct e = cc
  updates_hit ((name, c) ∷ rest) old n conf (own, keyed) (fresh, distinct) e =
      let first = for_entry deep_equal c (lookup name old) in
      elim (Bool-cases (text_eq name n)) [
        | inl hit ↦
            let same = (text_eq_iff name n).0 hit in
            let found : c ≡ conf = ground (arith, hit, e) in
            track-append n first _ _
            ∙ ap (track n _) (
                subst
                  (λ m.
                    track n (for_entry deep_equal c (lookup m old)) (lookup n old)
                    ≡ some (settled c (lookup n old)))
                  (sym same) (entry_hit c (lookup n old) n (own ∙ same)))
            ∙ updates_miss rest old _ n keyed (subst (λ m. lookup m rest ≡ none) same fresh)
            ∙ ap (λ d. some (settled d (lookup n old))) found
        | inr miss ↦
            track-append n first _ _
            ∙ ap (track n _) (entry_miss c (lookup name old) _ n (rw own miss))
            ∙ updates_hit rest old n conf keyed distinct (rw miss at e)
      ]

  removals_lem :
      (old confs : Map QueueConfig) (o : Option QueueConfig) (n : Text)
      → Keyed old
      → track n (removals deep_equal old confs) o
        ≡ (if is_some (lookup n confs) then o else if is_some (lookup n old) then none else o)
  unfolding removals lookup track
  removals_lem [] confs o n keyed = unfold track in ground arith
  removals_lem ((name, c) ∷ rest) confs o n (own, keyed) = ground (
    arith,
    removals_lem rest confs o n keyed,
    removals_lem rest confs none n keyed,
    text_eq_iff name n,
    text_eq_iff c.queue_name n,
  )

  abbrev pub settled_at : Option QueueConfig → Option QueueConfig → Option QueueConfig
  settled_at none old = none
  settled_at (some conf) old = some (settled conf old)

  -- After `UpdateConfigs`, and once the commands are served, a queue has a configuration exactly if
  -- the new configuration names it: its old one, where `DeepEqual` finds no difference, and
  -- otherwise the new one.
  pub update_configs-settled :
      (disabled : ℕ → Text → Bool) (confs : Map QueueConfig) (ms : MuxServer) (n : Text)
      → Keyed confs
      → Distinct confs
      → Keyed ms.queue_config
      → lookup n (serve disabled (update_configs deep_equal confs ms) ms).queue_config
        ≡ settled_at (lookup n confs) (lookup n ms.queue_config)
  unfolding update_configs
  update_configs-settled disabled confs ms n keyed distinct old_keyed =
      let old = ms.queue_config in
      serve-lookup disabled _ ms n
      ∙ track-append n (updates deep_equal confs old) _ _
      ∙ removals_lem old confs _ n old_keyed
      ∙ elim (Option-cases (lookup n confs)) [
        | inl gone ↦
            rw (gone, updates_miss confs old (lookup n old) n keyed gone)
              (ground (arith, Option-cases (lookup n old)))
        | inr (conf, there) ↦ rw (there, updates_hit confs old n conf keyed distinct there) refl
      ]
