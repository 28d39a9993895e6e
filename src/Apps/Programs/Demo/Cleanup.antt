-- ===== src/Apps/Programs/Demo/Cleanup.antt =====
-- What `cleanup` of examples/advanced/comprehensive_example.cpp leaves of the hosts.
use icelander.Prelude.{◌+◌, ◌-◌, ◌||◌, ◌≡◌, ◌∙◌, false, List, [], ◌∷◌, map, none, length, arith}
use icelander.Apps.Programs.{Service, done, ◌>>=◌, destroy, stop_service_thread}
use icelander.Apps.Programs.Resets.{held, or_false, reset_stopped}
use icelander.Apps.Programs.Demo.{Demo, destroy_all, cleanup}

-- Every host that was made is a member.
abbrev pub IsOwned : Demo → Type 0
IsOwned s = s.live ≡ length s.members.client_hosts + held s.members.server_host

destroy_all_stopped :
    (hs : List Service) (s : Demo)
    → destroy_all (map stop_service_thread hs) s ≡ done tt (record s { live = s.live - length hs })
unfolding destroy_all destroy stop_service_thread
destroy_all_stopped [] s = ground arith
destroy_all_stopped (h ∷ hs) s =
    destroy_all_stopped hs (record s { live = s.live - 1; careless = s.careless || false })
    ∙ (ground (arith, or_false s.careless))

-- The record that is left has no host, and none lost its last reference to a running thread.
pub cleanup_lem :
    (s : Demo)
    → IsOwned s
    → cleanup s
      ≡ done tt (record s {
        live = 0;
        members = record { running = s.members.running; server_host = none; client_hosts = [] };
      })
unfolding cleanup
cleanup_lem s h =
    let t : Demo = record s {
      live = s.live - length s.members.client_hosts;
      members = record s.members { client_hosts = [] };
    } in
    rw (destroy_all_stopped s.members.client_hosts s, ◌>>=◌)
      (rw (reset_stopped s.members.server_host t, ◌>>=◌) (ground (arith, h)))
