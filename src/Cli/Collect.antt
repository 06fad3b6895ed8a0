-- ===== src/Cli/Collect.antt =====
-- The collectors of cmd/mockingbox/main.go: `cmdSniff`, `cmdConvert`, `cmdMirror`, `cmdCollectAgent` and
-- `cmdCollectProxy`, from the values of their flags. The output, the packet sources, the reporter, the
-- daemon and the recorder are commands on a state; a fatal error exits with 1, and a fraction is a text.
use mocking_box.Prelude.{
  ℕ, Bool, true, false, not, ◌||◌, List, [], ◌∷◌, ◌++◌, Option, none, some, if◌then◌else◌, GoString,
  str, eqs, ℤ, pos, int_eq, Result, ok, fail, then_run,
}
use mocking_box.Golden.{is_golden_file}
use mocking_box.Config.{Config, Seconds, Attribution, Stack}

pub record CollectFlags : Type 0 where
  pub port : ℤ
  pub out : GoString
  pub sample : GoString
  pub sample_writes : Bool
  -- `--iface`, `--pcap` or `--listen`
  pub origin : GoString
  -- The flags of `agentFlags`
  pub dashboard : GoString
  pub token : GoString
  pub name : GoString
  pub vxlan : Bool

-- A source of packets with its interface, file or address.
pub data PacketSource : Type 0 where
  live file mirror_listener : GoString → PacketSource

pub record Collector : Type 1 where
  pub State : Type 0
  pub default_interface : Result GoString
  -- `NewOutput` of a path and a source, with `SampleRate` and `SampleAllWrites`
  pub new_output : GoString → GoString → GoString → Bool → State → Result (Unit {0}) × State
  -- `linkAgent` with a dashboard, a token, a name, a mode and a file
  pub link : GoString → GoString → GoString → GoString → GoString → State → State
  -- `RunLive`, `RunFile` and `RunMirror`, until they are stopped
  pub run_packets : PacketSource → ℤ → Bool → State → Result (Unit {0}) × State
  pub close : State → State
  pub finish : GoString → State → State

module _ (C : Collector) where
  unfoldable pub status : Result (Unit {0}) × C.State → ℕ × C.State
  status (ok done, s) = (0, s)
  status (fail e, s) = (1, s)

  -- `cmdSniff` and `cmdMirror` from the output on: the mode, the packets and the source's name
  unfoldable pub collect_linked :
      GoString → PacketSource → GoString → CollectFlags → C.State → ℕ × C.State
  unfolding status
  collect_linked mode packets origin flags s = status (
      then_run (C.new_output (flags.out) origin (flags.sample) (not (flags.sample_writes)) s)
        (λ _ s1.
          then_run
            (C.run_packets packets (flags.port) false
              (C.link (flags.dashboard) (flags.token) (flags.name) mode (flags.out) s1))
            (λ _ s2. (ok tt, C.finish (flags.out) (C.close s2)))))

  missing : CollectFlags → Bool
  unfolding int_eq eqs
  missing flags = int_eq (flags.port) (pos 0) || eqs (flags.out) []

  sniff_on : CollectFlags → Result GoString → C.State → ℕ × C.State
  unfolding collect_linked
  sniff_on flags (fail e) s = (1, s)
  sniff_on flags (ok iface) s =
      collect_linked (str "sniff") (live iface) (str "sniff://" ++ iface) flags s

  -- `cmdSniff`
  unfoldable pub cmd_sniff : CollectFlags → C.State → ℕ × C.State
  unfolding missing eqs sniff_on
  cmd_sniff flags s =
      if missing flags
      then (2, s)
      else sniff_on flags (if eqs (flags.origin) [] then C.default_interface else ok (flags.origin))
          s

  -- `cmdMirror`
  unfoldable pub cmd_mirror : CollectFlags → C.State → ℕ × C.State
  unfolding missing collect_linked
  cmd_mirror flags s =
      if missing flags
      then (2, s)
      else collect_linked (str "mirror") (mirror_listener (flags.origin))
          (str "mirror://" ++ flags.origin) flags s

  -- `cmdConvert`
  unfoldable pub cmd_convert : CollectFlags → C.State → ℕ × C.State
  unfolding missing eqs status
  cmd_convert flags s =
      if eqs (flags.origin) [] || missing flags
      then (2, s)
      else status (
          then_run
            (C.new_output (flags.out) (str "pcap://" ++ flags.origin) (flags.sample)
              (not (flags.sample_writes)) s)
            (λ _ s1.
              then_run (C.run_packets (file (flags.origin)) (flags.port) (flags.vxlan) s1)
                (λ _ s2. (ok tt, C.close s2))))

pub record AgentFlags : Type 0 where
  pub dashboard : GoString
  pub token : GoString
  pub name : GoString
  pub dir : GoString
  pub iface : GoString

-- `cmdCollectAgent`; the daemon gives its error, and `detected` is `DefaultInterface`.
unfoldable pub cmd_collect_agent {ℓ} :
    {S : Type ℓ} → Result GoString → (AgentFlags → S → Option GoString × S) → AgentFlags → S → ℕ × S
unfolding eqs
cmd_collect_agent {S = S} detected daemon flags s =
    if eqs (flags.dashboard) []
    then (2, s)
    else ended (
        daemon
          (record flags { iface = if eqs (flags.iface) [] then or_none detected else flags.iface })
          s)
  where
    or_none : Result GoString → GoString
    or_none (ok iface) = iface
    or_none (fail e) = []

    ended : Option GoString × S → ℕ × S
    ended (none, s') = (0, s')
    ended (some e, s') = (1, s')

pub record ProxyFlags : Type 0 where
  pub config : GoString
  pub listen : GoString
  pub upstream : GoString
  pub out : GoString

-- What `capture.Start` gets of the configuration: whether a golden is recorded, and the stack whose source
-- is watched, the attribution and the noise where one is.
pub record ProxyOptions : Type 0 where
  pub golden : Bool
  pub watched : Option (Stack × Attribution × List GoString × List GoString)

module _ {ℓ} {S : Type ℓ} {T : Seconds} (load : GoString → Result (Config T))
    (record_until : GoString → GoString → GoString → ProxyOptions → S → Result (Unit {0}) × S) where
  watched_of : Bool → Config T → Option (Stack × Attribution × List GoString × List GoString)
  watched_of false cfg = none
  watched_of true cfg = some (cfg.old, cfg.attribution, cfg.noise.columns, cfg.noise.tables_ignore)

  proxy_status : Result (Unit {0}) × S → ℕ × S
  proxy_status (ok done, s) = (0, s)
  proxy_status (fail e, s) = (1, s)

  proxy_to : ProxyFlags → GoString → ProxyOptions → S → ℕ × S
  unfolding proxy_status
  proxy_to flags [] opts s = (1, s)
  proxy_to flags (c ∷ upstream) opts s =
      proxy_status (record_until (flags.listen) (c ∷ upstream) (flags.out) opts s)

  proxy_config : ProxyFlags → Result (Config T) → S → ℕ × S
  unfolding watched_of proxy_to is_golden_file eqs
  proxy_config flags (fail e) s = (1, s)
  proxy_config flags (ok cfg) s =
      let golden = is_golden_file (flags.out) in
      proxy_to flags (if eqs (flags.upstream) [] then cfg.old.base_url else flags.upstream)
        (record { golden = golden; watched = watched_of golden cfg }) s

  -- `cmdCollectProxy`: `record_until` starts the recorder, waits and stops it.
  unfoldable pub cmd_collect_proxy : ProxyFlags → S → ℕ × S
  unfolding eqs proxy_config proxy_to is_golden_file
  cmd_collect_proxy flags s =
      if eqs (flags.out) []
      then (2, s)
      else if eqs (flags.config) []
      then proxy_to flags (flags.upstream)
          (record { golden = is_golden_file (flags.out); watched = none }) s
      else proxy_config flags (load (flags.config)) s
