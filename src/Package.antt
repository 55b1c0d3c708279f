-- ===== src/Package.antt =====
-- The tools that check and build the package: tools/validate_phase1.py and tools/build_package.py.
-- The file system, `json`, `ast`, `xml.etree` and `unittest` are given.
pub mod Conf
pub mod Report
pub mod Tree
pub mod Authorize
pub mod Endpoints
pub mod Access
pub mod Manifest
pub mod Views
pub mod Sources
pub mod Validator
pub mod Build
pub mod Samples
pub mod Tests
