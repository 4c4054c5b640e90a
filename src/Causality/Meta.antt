-- ===== src/Causality/Meta.antt =====
-- causality/src/tree.rs: the constructors of `CausalityMeta`.
use lusid.Base.{none, some, List, []}
use lusid.Causality.Collect.{CausalityMeta}

abbrev pub default : {NodeId : Type 0} → CausalityMeta NodeId
default = record { id = none; requires = []; required_by = [] }

abbrev pub id : {NodeId : Type 0} → NodeId → CausalityMeta NodeId
id node_id = record { id = some node_id; requires = []; required_by = [] }

abbrev pub requires : {NodeId : Type 0} → List NodeId → CausalityMeta NodeId
requires ids = record { id = none; requires = ids; required_by = [] }

abbrev pub required_by : {NodeId : Type 0} → List NodeId → CausalityMeta NodeId
required_by ids = record { id = none; requires = []; required_by = ids }
