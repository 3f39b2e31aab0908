-- ===== src/Admission.antt =====
-- Admission of endpoints: identity_admission.go and service_admission.go. A ticket or a grant is
-- validated, its holder proves possession of a key, and the admission is taken by a JOIN.
pub mod Types
pub mod Ticket
pub mod Grant
pub mod Identity
pub mod Joins
pub mod Sound
pub mod Service
