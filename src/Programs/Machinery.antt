-- ===== src/Programs/Machinery.antt =====
-- The configuration and the clientset that the small programs share (machinery/clientset.go), and
-- what they read of a cluster. The flags are left out.
use bad_pen.Base.Result.{Result, ok, err}

-- Inside a cluster its own configuration is taken, and elsewhere the one that the flags name.
unfoldable pub load_config : {C : Type 0} → Result C → Result C → Result C
load_config (ok c) from_flags = ok c
load_config (err e) from_flags = from_flags

-- What follows a configuration, which may be an error.
for_config : {C S : Type 0} → (C → Result S) → Result C → Result S
for_config new_for_config (err e) = err e
for_config new_for_config (ok c) = new_for_config c

-- `NewClientset`, by `rest.InClusterConfig`, `clientcmd.BuildConfigFromFlags` and
-- `kubernetes.NewForConfig`.
unfoldable pub new_clientset : {C S : Type 0} → Result C → Result C → (C → Result S) → Result S
unfolding load_config for_config
new_clientset in_cluster from_flags new_for_config =
    for_config new_for_config (load_config in_cluster from_flags)
