-- ===== src/Lib.antt =====
-- docker-devbox-ddb: a verification library of the core of the `ddb` command.
--
-- `ddb` reads a configuration, registers features, and runs a command, whose phases emit events
-- on a bus. Actions of the features listen to these events and generate files; a context notes what runs
-- and which files were processed, and caches keep what a later run must know. The parts and their files:
--
-- - Registry: class `Registry` of ddb/registry.py, on top of the cache. Its state is the dictionary of
--   objects, their list and the optional cache; each call is a function from a registry to a registry and
--   a result, with Python's exceptions as values. Validity says when a registry is well-formed,
--   Mirror when its cache agrees with it, Laws what single calls do, History is about sequences of
--   calls, and Restart about a new process. `RegistryOrderedSet` is not modelled.
-- - Cache: ddb/cache/cache.py and the dictionary behind ddb/cache/shelve_cache.py, as the entries and
--   what was last synchronised. Files of the shelve are not modelled.
-- - Removal: `RemovalCacheSupport` of ddb/cache/removal.py. Python sets are lists without doubles.
-- - Bus: ddb/event/bus.py. What a listener does is a parameter, a call on the state that may raise.
--   Listeners do not change the bus during an emission.
-- - Context: the state of ddb/context/context.py, its stack and the processed sources and targets.
-- - Action: ddb/action/runner.py, `run` of a runner and of one that initialises its action. The
--   action's callable and the event processor are parameters, and log output is not modelled.
-- - Main: ddb/__main__.py. The whole run with its exceptions and the reset, on steps that are parameters;
--   Load is the loading of the features and the registration of their objects, Bindings puts the
--   listeners of the actions on the bus, and Watch is the watch loop. Argument parsing, logging and
--   plugins are not modelled.
-- - Render: class `AbstractTemplateAction` of ddb/action/action.py: the rendering of a template with its
--   retries, and in Deletion the deletion of a target. What renders a template is a parameter.
-- - FileWalk: ddb/feature/file/actions.py, on the cache: the events of a walk over the files, and those of
--   changes in watch mode. The walker's loops and the listeners are parameters.
-- - Certs, Traefik: ddb/feature/certs/actions.py, with the writer of ddb/feature/certs/cfssl/writer.py, and the
--   files of a domain of ddb/feature/traefik/actions.py. The server and the templates are parameters.
-- - Run: the binaries of ddb/feature/docker/binaries.py and ddb/binary/binary.py, and the choice of one in
--   ddb/feature/run/actions.py. Conditions, paths and `shlex` are parameters.
-- - Updates: versions and releases in ddb/feature/core/actions.py. The pattern's search and the network are
--   parameters.
-- - Phase, Command: ddb/phase/phase.py and ddb/command/command.py, on top of the cache and the bus.
--   Argument parsers are not modelled.
-- - Bootstrap: the order of features of ddb/feature/bootstrap.py. The topological sort of `toposort`
--   is a parameter, of which a hypothesis says that it puts a name behind the others it depends on.
-- - Files: `write_if_different` of ddb/utils/file.py, on one path. File modes are a parameter.
-- - Docker: `get_mapped_path` of ddb/feature/docker/utils.py.
-- - Shell: where shims go, and whether a project may be activated, of ddb/feature/shell/actions.py;
--   Environment is what its activation and deactivation scripts do to the variables of a shell. The
--   third-party difference of dictionaries is a parameter with its documented law.
-- - Labels: the events of a service's labels and the cache of certificate domains, of
--   ddb/feature/docker/actions.py. The patterns and the vendored `simple_eval` are parameters.
-- - Fixuid: the entrypoint of a Dockerfile in ddb/feature/fixuid/actions.py. The parser of Dockerfiles, json
--   and `shlex` are parameters.
-- - Ports: ddb/feature/jsonnet/docker.py, the published ports of a compose file.
-- - Templates: `TemplateFinder.get_target` of ddb/utils/file.py. `os.path.splitext` and the patterns
--   that filter files are parameters.
-- - Config: Value is the data of a YAML file. Environ models `apply_environ_overrides`, and Search the
--   search for the project and its files, of ddb/config/config.py; Flatten models
--   ddb/config/flatten.py, Merger ddb/config/merger.py and Migrations ddb/config/migrations.py. The
--   strategies of deepmerge, the dotted dictionary of `Dotty` and the paths of the operating system are
--   parameters.
-- - Gitignore: the block that ddb/feature/gitignore/actions.py keeps in a `.gitignore`, as a function of
--   the file's lines. The ignore test, by `zgitignore`, is not modelled.
-- - Prelude and Dict: results, calls on a state that may raise, lists, and Python's `dict` with string
--   keys as an association list in insertion order.
--
-- Fuel and bounds. `Config.Search.search_from` takes fuel for the directories above the working
-- directory: `get_default_config_paths` gives one more than its depth, and each round goes to a
-- directory of smaller depth or ends. `Command.execute` takes fuel for Python's stack of calls, one
-- for each parent: the length of a command's line of parents is enough, and a command that is its own
-- ancestor has no such line. `Render.execute` takes fuel for the calls that retry: 52 of them are
-- enough, since there are at most 51 retries, and more change nothing. `Main.Watch.handle_watch` takes
-- fuel for the rounds of waiting: one more than the round in which the stop event is set is enough,
-- and without such a round the loop does not end. `Ports.next_free` has one unit of fuel more than
-- numbers are used, which is enough to find a free one. All other loops recurse on their data. Numbers
-- are natural numbers, or ℤ for the integers of a configuration; Python's integers have no width.
--
-- Not modelled: the other features (their calls of docker, git, cfssl, jinja2, jsonnet, cookiecutter,
-- ytt), schemas, the shells' scripts, the reading of YAML and argument parsing, which are
-- for the most part calls of other programs and libraries, and the vendored copies of simpleeval and
-- docker-compose.
pub mod Prelude
pub mod Dict
pub mod Cache
pub mod Registry
pub mod Bus
pub mod Context
pub mod Action
pub mod Config
pub mod Gitignore
pub mod Phase
pub mod Command
pub mod Removal
pub mod Files
pub mod Bootstrap
pub mod Docker
pub mod Templates
pub mod Shell
pub mod Main
pub mod Render
pub mod FileWalk
pub mod Certs
pub mod Traefik
pub mod Run
pub mod Updates
pub mod Ports
pub mod Labels
pub mod Fixuid
