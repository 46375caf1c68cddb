-- ===== src/Appointments.antt =====
-- backend/domains/appointments: the status machine, the tables, availability, booking, status
-- changes and cancellation.
pub mod Status
pub mod Queries
pub mod Calendar
pub mod Refund
pub mod Transition
pub mod Booking
pub mod Cancel
pub mod Slots
pub mod Requests
mod Tests
