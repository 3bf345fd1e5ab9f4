-- ===== src/Kube/Config.antt =====
-- internal/kube/client.go: where Config finds the configuration of the cluster, and NewForConfig.
-- Parameters: the configuration that clientcmd reads from a file, the one that rest finds inside a
-- cluster, os.Getenv, os.UserHomeDir, the file .kube/config of a home directory, and whether client-go
-- makes its two clients of a configuration (`none`) or answers with an error.
use agentsty.Prelude.{
  not, Option, none, some, [], Str, codes, str_eq, Result, ok, err, if◌then◌else◌,
}
use agentsty.Kube.Client.{client_namespace}

pub record Sources (C : Type 0) : Type 0 where
  pub from_file : Str → Result Str C
  pub in_cluster : Result Str C
  pub getenv : Str → Str
  pub home : Result Str Str
  pub in_home : Str → Str

module _ {C : Type 0} (sources : Sources C) where
  abbrev from_home : Result Str Str → Result Str C
  from_home (err e) = err e
  from_home (ok dir) = sources.from_file (sources.in_home dir)

  abbrev from_environment : Result Str C
  from_environment =
      let file = sources.getenv (codes "KUBECONFIG") in
      if not (str_eq file []) then sources.from_file file else from_home sources.home

  abbrev inside_or : Result Str C → Result Str C → Result Str C
  inside_or (ok cfg) other = ok cfg
  inside_or (err e) other = other

  -- Config
  unfoldable pub config : Str → Result Str C
  unfolding str_eq
  config kubeconfig =
      if not (str_eq kubeconfig [])
      then sources.from_file kubeconfig
      else inside_or sources.in_cluster from_environment

-- what NewForConfig returns: the configuration of both clients, and the namespace of the session client
pub record Clients (C : Type 0) : Type 0 where
  pub config : C
  pub namespace : Str

module _ {C : Type 0} (dynamic_error client_error : C → Option Str) where
  abbrev clients_of : C → Str → Option Str → Option Str → Result Str (Clients C)
  clients_of cfg namespace (some e) _ = err e
  clients_of cfg namespace none (some e) = err e
  clients_of cfg namespace none none =
      ok (record { config = cfg; namespace = client_namespace namespace })

  -- NewForConfig
  unfoldable pub new_for_config : C → Str → Result Str (Clients C)
  unfolding client_namespace
  new_for_config cfg namespace = clients_of cfg namespace (dynamic_error cfg) (client_error cfg)
