-- ===== src/Config/Loaded.antt =====
-- What holds of a configuration that `Load` returned.
use mocking_box.Prelude.{
  ℕ, suc, ◌≡◌, refl, subst, Bool, true, false, some, ◌⊎◌, ◌||◌, List, [], ◌∷◌, ◌++◌, none, GoString,
  str, eqs, itoa, All, ℤ, pos, int_eq, ok, and_then-ok, ok_inj, fail-ne_ok, arith, Bool-cases, inl,
  inr,
}
use mocking_box.Config.{
  Datastore, Stack, Config, Seconds, mysql_type, postgres_type, is_supported, or_number, or_default,
  default_port, defaulted, normalize_datastore, normalize_from, normalize_stack, promote_legacy,
  named, load, promote_legacy-base_url,
}
use mocking_box.Config.Choice.{source_for, binlog, postgres}

-- A supported type, a port and a name.
abbrev pub IsReady : Datastore → Type 0
IsReady d =
    (is_supported (d.type) ≡ true) × ((int_eq (d.port) (pos 0) ≡ false) × (eqs (d.name) [] ≡ false))

or_number-nonzero : (n m : ℤ) → int_eq m (pos 0) ≡ false → int_eq (or_number n m) (pos 0) ≡ false
unfolding or_number
or_number-nonzero n m h = elim (Bool-cases (int_eq n (pos 0))) [ inl e ↦ rw e h | inr e ↦ rw e e ]

default_port-nonzero : (type : GoString) → int_eq (default_port type) (pos 0) ≡ false
unfolding default_port int_eq
default_port-nonzero type = ground arith

or_default-nonempty : (s t : GoString) → eqs t [] ≡ false → eqs (or_default s t) [] ≡ false
unfolding or_default eqs
or_default-nonempty [] t h = h
or_default-nonempty (c ∷ s) t h = refl

normalize_datastore-IsReady :
    (i : ℕ) (d d' : Datastore) → normalize_datastore i d ≡ ok d' → IsReady d'
unfolding normalize_datastore defaulted eqs
normalize_datastore-IsReady i d d' e =
    elim (Bool-cases (is_supported (or_default (d.type) mysql_type))) [
      | inl h ↦
          let k : ok (defaulted i (or_default (d.type) mysql_type) d) ≡ ok d' = rw h at e in
          subst IsReady (ok_inj k) (
            h,
            (
              or_number-nonzero (d.port) (default_port (or_default (d.type) mysql_type))
                  (default_port-nonzero (or_default (d.type) mysql_type)),
              or_default-nonempty (d.name) (str "db" ++ itoa (suc i)) refl,
            ),
          )
      | inr h ↦ absurd (fail-ne_ok (rw h at e))
    ]

normalize_from-IsReady :
    (i : ℕ) (ds ds' : List Datastore) → normalize_from i ds ≡ ok ds' → All IsReady ds'
unfolding normalize_from
normalize_from-IsReady i [] ds' e = subst (All IsReady) (ok_inj e) tt
normalize_from-IsReady i (d ∷ ds) out e =
    let (d', (p, q)) = and_then-ok (normalize_datastore i d) _ out e in
    let (ds', (r, s)) = and_then-ok (normalize_from (suc i) ds) _ out q in
    subst (All IsReady) (ok_inj s)
      (normalize_datastore-IsReady i d d' p, normalize_from-IsReady (suc i) ds ds' r)

normalize_stack-IsReady :
    (s s' : Stack)
    → normalize_stack s ≡ ok s'
    → All IsReady (s'.datastores) × (s'.base_url ≡ s.base_url)
unfolding normalize_stack
normalize_stack-IsReady s s' e =
    let (ds', (p, q)) = and_then-ok (normalize_from 0 (s.datastores)) _ s' e in
    subst (λ t. All IsReady (t.datastores) × (t.base_url ≡ s.base_url)) (ok_inj q)
      (normalize_from-IsReady 0 (s.datastores) ds' p, refl)

or-right : (a b c : Bool) → (b || c) ≡ true → (a || b) ≡ false → c ≡ true
or-right a b c h e = ground arith

-- No source where there is no datastore, and one for the first datastore otherwise.
abbrev pub HasSource : List Datastore → Type 0
HasSource [] = source_for [] ≡ ok none
HasSource (d ∷ ds) =
    (source_for (d ∷ ds) ≡ ok (some (binlog d))) ⊎ (source_for (d ∷ ds) ≡ ok (some (postgres d)))

All-HasSource : (ds : List Datastore) → All IsReady ds → HasSource ds
unfolding source_for is_supported
All-HasSource [] h = refl
All-HasSource (d ∷ ds) (h, hs) = elim (Bool-cases (eqs (d.type) [] || eqs (d.type) mysql_type)) [
  | inl e ↦ rw e (inl refl)
  | inr e ↦
      rw
        (
          e,
          or-right (eqs (d.type) []) (eqs (d.type) mysql_type) (eqs (d.type) postgres_type) (h.0) e,
        )
        (inr refl)
]

-- `Load` returns only configurations in which every datastore of both stacks has a supported type, a
-- port and a name, in which `For` makes a write-set source of the first datastore of either stack, or
-- without an error none if the stack has no datastore, and in which the URL of the new stack is not
-- empty.
pub load-IsReady :
    {T : Seconds} (cfg out : Config T)
    → load cfg ≡ ok out
    → (All IsReady (out.old.datastores) × All IsReady (out.new.datastores))
      × ((HasSource (out.old.datastores) × HasSource (out.new.datastores))
          × (eqs (out.new.base_url) [] ≡ false))
unfolding load
load-IsReady cfg out e = elim (Bool-cases (eqs ((named (str "new") (cfg.new)).base_url) [])) [
  | inl h ↦ absurd (fail-ne_ok (rw h at e))
  | inr h ↦
      let k = rw h at e in
      let (old, (p, q)) =
        and_then-ok (normalize_stack (promote_legacy (named (str "old") (cfg.old)) none)) _ out k in
      let (new, (r, s)) =
        and_then-ok
          (normalize_stack (promote_legacy (named (str "new") (cfg.new)) (cfg.seed_source))) _ out
          q in
      let (a, _) =
        normalize_stack-IsReady (promote_legacy (named (str "old") (cfg.old)) none) old p in
      let (b, u) =
        normalize_stack-IsReady (promote_legacy (named (str "new") (cfg.new)) (cfg.seed_source)) new
          r in
      let url : eqs (new.base_url) [] ≡ false =
        rw (u, promote_legacy-base_url (named (str "new") (cfg.new)) (cfg.seed_source)) h in
      subst
        (λ c.
          (All IsReady (c.old.datastores) × All IsReady (c.new.datastores))
          × ((HasSource (c.old.datastores) × HasSource (c.new.datastores))
              × (eqs (c.new.base_url) [] ≡ false)))
        (ok_inj s)
        ((a, b), ((All-HasSource (old.datastores) a, All-HasSource (new.datastores) b), url))
]
