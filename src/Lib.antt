-- ===== src/Lib.antt =====
-- AgentBaker turns the description of a node of a Kubernetes cluster into what the node needs to
-- join it: custom data, an extension command, and the image to start from. This library models the
-- decisions that the Go code takes on the way and proves what they promise.
--
-- The parts and where they stand:
-- - Datamodel: the structs of pkg/agent/datamodel (types.go, azenvtypes.go, sig_config.go), one
--   record each with its zero value, and the distributions with their tests. A pointer is an
--   `Option`, also as an element of a list; so is a map or slice whose nil the code tells from an
--   empty one.
-- - Kubelet: the kubelet's flags. KeyVals parses flag values and rewrites feature gates,
--   CommandLine and ConfigFile split the flags between the command line and the configuration file
--   (pkg/agent/utils.go), Rewrite changes the configuration before it is rendered
--   (pkg/agent/baker.go, the two validateAndSet functions). PowerShell prints flags as quoted pairs
--   (pkg/agent/datamodel/types.go, helper.go).
-- - Sig, OsImage: the images (pkg/agent/datamodel/sig_config.go, osimageconfig.go).
-- - BakerApi: the two operations of the interface (pkg/agent/bakerapi.go), which use Sig, OsImage
--   and a rendered text.
-- - Versions: the tables of Kubernetes versions and the choice of one
--   (pkg/agent/datamodel/versions.go).
-- - Cloud: from a region to its cloud (pkg/agent/utils.go, pkg/agent/datamodel/sig_config.go,
--   pkg/aks-engine/helpers/helpers.go).
-- - Cluster: the names of a cluster's network (pkg/agent/datamodel/types.go).
-- - Methods: the methods of the data model (pkg/agent/datamodel/types.go, helper.go), by receiver:
--   Pool, Kubernetes, Profiles, Windows, Cluster, Naming. Naming keeps the identifier of a cluster
--   as state.
-- - Template: the functions that the templates call (getContainerServiceFuncMap of
--   pkg/agent/baker.go), one definition for each entry.
-- - Generator: what the templates are fed with and what becomes of them. Params is paramsMap with
--   addValue and addSecret, Parameters is params.go, CustomData and Variables are variables.go,
--   Payload composes them to the custom data and the command of a node (baker.go), SingleLine
--   escapes and decodes, Addresses, Extension and Rules are helpers (utils.go), Assets the names of
--   the assets (const.go).
-- - Certificate: certificateHash and parseCertsPEM (pkg/agent/utils.go).
-- - CseMessage: ParseCSEMessage (pkg/agent/utils.go). Label: normalizeResourceGroupNameForLabel
--   (pkg/agent/baker.go).
-- - Prelude, Text, GoMap: numbers, results, byte strings with Go's package strings and strconv, and
--   maps as association lists. Tests: the theorems at concrete inputs.
--
-- A Go string is the list of its bytes; the functions of package strings are modelled on ASCII. A
-- Go function has the name of its model in snake case. An error is `err` of `Result`; a panic is
-- `none`, and a function that cannot panic returns its value bare. A Go map is visited in the order
-- of its list; where the order can show, `range` is a parameter, and a theorem holds for each order
-- that visits the keys. A slice that is nil is the empty list where nothing tells the two apart.
--
-- Two functions use fuel. The decimal printing of a number has `suc n` rounds for `n`, which is enough
-- since a round divides by ten; the loop over the blocks of a certificate has one round more than
-- the text has bytes, since a block takes one away at least. All other loops recurse on a list.
--
-- Parameters stand for github.com/blang/semver (record Semver, with its order in IsOrdered and its
-- sorting in Sorts), for text/template over the generated assets, and for json.Marshal and
-- json.Unmarshal, compress/gzip, archive/zip, crypto/x509, the seeded generator of math/rand and
-- the printing of floats (records Surroundings and CertificateTools). BakerApi takes the two texts
-- that Payload makes as arguments.
--
-- Not modelled: the generated templates (pkg/templates), which are data, and their execution; the
-- loader and merger of API models under pkg/aks-engine; mocks, tools and tests.
pub mod Prelude
pub mod Text
pub mod GoMap
pub mod Datamodel
pub mod Cloud
pub mod OsImage
pub mod Sig
pub mod Versions
pub mod Kubelet
pub mod BakerApi
pub mod Cluster
pub mod Label
pub mod Certificate
pub mod Methods
pub mod Template
pub mod Generator
pub mod CseMessage
pub mod Tests
