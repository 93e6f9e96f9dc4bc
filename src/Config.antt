-- ===== src/Config.antt =====
-- proxy/config: the configuration and how it is completed and checked after the YAML decoder has
-- filled it. Go's maps are association lists; their order is the order in which a `range` visits
-- them, which Go leaves open and the theorems do not fix.
pub mod Types
pub mod Names
pub mod Aliases
pub mod Groups
pub mod Partition
pub mod Replaced
pub mod Filters
pub mod Macros
pub mod Env
pub mod Command
pub mod Models
pub mod Load
pub mod Results
pub mod ModelLaws
pub mod Loaded
pub mod Merging
