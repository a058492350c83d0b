-- ===== src/Dependency/Config.antt =====
-- `BaseConfig` of dependency_manager/base_config.py. The parsed json file stands for its text.
pub mod Data
pub mod Platform
pub mod Jobs
pub mod Execute
pub mod Infos
