-- ===== src/Labels/Domains.antt =====
-- ddb/feature/docker/actions.py: which certificates are removed, and what the cache of domains keeps.
use docker_devbox_ddb.Prelude.{eq_string}
use docker_devbox_ddb.Prelude.Exec.{Exec}
use docker_devbox_ddb.Cache.{Cache}
