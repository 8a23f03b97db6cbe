-- ===== src/Scheduler/Server/Routes/Requests.antt =====
-- What any request to the HTTP API does to the state (scheduler/server.go).
use riak_mesos_legacy.Base.{inl, inr, refl, List, Option, Option-cases}
use riak_mesos_legacy.Base.Text.{Text}
use riak_mesos_legacy.Scheduler.Config.{Config, Outside}
use riak_mesos_legacy.Scheduler.Core.{Core, Zookeeper}
use riak_mesos_legacy.Scheduler.Server.Proxy.{Http}
use riak_mesos_legacy.Scheduler.Server.Routes.{Mux, table, route_of, serve}
use riak_mesos_legacy.Scheduler.Server.Contract.{Keeps, handle-Keeps}

-- Whatever the router, the method, the path and the body, an answer of 400 or more leaves the state as it was; an
-- answer that changes it is given only after the whole new state is stored, once; and a request that
-- dies leaves what was stored, or has stored the whole new state.
pub serve-Keeps :
    (mux : Mux) (sc : Config) (out : Outside) (http : Http) (zk : Zookeeper) (uuid : Text)
    (body : Option Text) (method : Text) (path : List Text) (core : Core)
    → Keeps core (serve mux sc out http zk uuid body method path core)
unfolding serve
serve-Keeps mux sc out http zk uuid body method path core =
    elim (Option-cases (mux table method path)) [
      | inl e ↦ rw (Keeps, e) (inl refl)
      | inr (found, e) ↦
          rw (Keeps, e)
            (elim (Option-cases (route_of uuid body found)) [
              | inl f ↦ rw (Keeps, f) (inl refl)
              | inr (route, f) ↦ rw (Keeps, f) (handle-Keeps sc out http zk route core)
            ])
    ]
