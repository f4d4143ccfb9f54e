-- ===== src/Tests.antt =====
-- Concrete instances of the libraries, and the theorems at concrete inputs.
mod Store
mod Names
mod Storing
mod Handling
mod Serving
mod Old
mod Whole
mod Clients
mod Status
mod Fetching
mod Counting
mod Origins
