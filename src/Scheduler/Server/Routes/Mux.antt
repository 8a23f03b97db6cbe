-- ===== src/Scheduler/Server/Routes/Mux.antt =====
-- What gorilla/mux promises to scheduler/server.go: the first registered entry that takes the method and
-- whose template fits the path gets the request.
use riak_mesos_legacy.Base.{
  ◌≡◌, Bool, false, ◌||◌, List, [], ◌∷◌, Option, none, some, if◌then◌else◌, is_empty,
}
use riak_mesos_legacy.Base.Opt.{◌>>=◌}
use riak_mesos_legacy.Base.Text.{Text, text_eq}
use riak_mesos_legacy.Scheduler.Server.Routes.{Part, word, variable, Handler, Entry, Mux}

-- The values of the variables, where the parts of a path fit the template.
unfoldable pub fit : List Part → List Text → Option (List Text)
fit [] [] = some []
fit [] (_ ∷ _) = none
fit (_ ∷ _) [] = none
fit (word w ∷ t) (s ∷ p) = let rest = fit t p in if text_eq w s then rest else none
fit (variable ∷ t) (s ∷ p) =
    let rest = fit t p >>= λ vars. some (s ∷ vars) in if is_empty s then none else rest

unfoldable pub one_of : Text → List Text → Bool
one_of m [] = false
one_of m (x ∷ l) = text_eq x m || one_of m l

abbrev pub takes : Entry → Text → Bool
takes e method = is_empty e.methods || one_of method e.methods

-- What an entry makes of a request.
unfoldable pub answers : Text → List Text → Entry → Option (Handler × List Text)
unfolding fit one_of
answers method path e =
    let found = fit e.template path >>= λ vars. some (e.handler, vars) in
    if takes e method then found else none

-- The first entry that takes a request.
unfoldable pub dispatch : List Entry → Text → List Text → Option (Handler × List Text)
unfolding answers
dispatch [] method path = none
dispatch (e ∷ l) method path =
    let rest = dispatch l method path in
    elim (answers method path e) [ none ↦ rest | some found ↦ some found ]

-- The router follows its documentation.
abbrev pub IsMux : Mux → Type 0
IsMux mux =
    (entries : List Entry) (method : Text) (path : List Text)
    → mux entries method path ≡ dispatch entries method path
