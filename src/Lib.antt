-- ===== src/Lib.antt =====
-- The core of the car-wash booking backend (backend/): pricing, bookings, the status machine of
-- an appointment, the availability engine, cancellation, the payment intents behind them, the
-- payment ledger, fares, rides and their matching, addresses, changes of e-mail and telephone,
-- promo codes, reviews, the include tokens of a profile, the idempotency of requests, refresh
-- tokens, the login lock, second factors, payment methods and the webhook of Stripe, a provider's
-- identity check, application, documents and photos, favorites, the active role, administrators'
-- refunds, roles and permissions.
--
-- The parts and how they interact. A client books through POST /appointments: create_appointment
-- of backend/domains/appointments/service.py looks up the detailer, the services, the vehicles and
-- the add-ons, prices each entry, takes the detailer's advisory lock, counts overlaps and inserts
-- the rows. create_payment_intent of backend/domains/payments/service.py then puts a hold on the
-- client's card. PATCH /{id}/status and POST /{id}/cancel (backend/domains/appointments/router.py)
-- drive transition_status, which captures, voids or refunds the money on the way.
-- get_available_slots tells clients what can be booked. A login counts failures and locks the
-- account, and a refresh token buys one pair of tokens and is replaced. Each request is one
-- transaction (backend/infrastructure/db/session.py). A ride on demand is estimated, requested with
-- the fare's token, and offered by a background loop to one detailer after the other, who accept or
-- decline it by requests of their own.
--
-- The files.
-- Base: shared names, Boolean tests, tables as lists. Texts: the comparison of texts.
-- Float: IEEE doubles for the prices, with the bounds of their rounding in Float/Bounds.
-- Catalog: backend/domains/vehicles/models.py, SIZE_MULTIPLIERS of backend/app/db/seed.py, Service
--   and Addon of backend/domains/services_catalog/models.py, map_body_to_size of
--   backend/infrastructure/nhtsa/client.py.
-- Pricing: calculate_appointment_data and calculate_multi_appointment_data, against exact
--   arithmetic in Pricing/Exact and against sums in Pricing/Totals.
-- Store: the tables, the calls to Stripe, the events, and the monad M of a handler, which passes a
--   World on and ends in ok or err; request is get_db's commit or roll-back. Store/Frames takes
--   handlers apart.
-- Appointments/Status: AppointmentStatus, TERMINAL_STATUSES and VALID_TRANSITIONS; its diagram in
--   Status/Graph.
-- Appointments/Queries: the queries of backend/domains/appointments/repository.py.
-- Appointments/Calendar: the invariant of the appointments table.
-- Appointments/Booking and Booking/Create: create_appointment; Booking/Safety and
--   Booking/Breakdown prove its properties.
-- Appointments/Refund: the refund policy; Refund/Exact compares it with exact arithmetic.
-- Appointments/Transition: transition_status; Transition/Safety, Rules and Money prove its
--   properties.
-- Appointments/Cancel: cancel_appointment and _refund_preview, compared in Cancel/Preview.
-- Appointments/Slots: get_available_slots; Slots/Grid proves its loop, Slots/Day a whole day,
--   and Slots/Bookable that an available slot passes the check of create_appointment.
-- Appointments/Requests: the endpoints as steps on the world, and their sequences.
-- Payments/Intents: PaymentService.
-- Payments/Ledger: PaymentCoordinator of backend/domains/payments/service_v2.py over the
--   append-only ledger; Payments/Ledger/Commission proves the split of a payment.
-- Rides/Fares: backend/domains/payments/fare_service.py, fare_router.py and request_ride of
--   rides_router.py, with the surge in Fares/Surge. Rides/Acts lists what requests and loops write;
--   Rides/Booked (over Carried and Fares/Booking) follows a fare from its estimate to its ride.
-- Rides/Matching: accept_ride and decline_ride of rides_router.py and the steps of the loop assign
--   of backend/domains/matching/service.py; Matching/Run is the step relation of a run, and
--   OneOffer and Once prove its properties. A request is split there into its queries and its commit,
--   between which anything may happen.
-- Users/Defaults: the queries that the repositories of addresses and cards share
--   (backend/domains/users/address_repository.py); Counts, Settled, Insertion and Deletion below it
--   prove what they do to the default.
-- Users/Addresses: backend/domains/users/address_service.py; Addresses/Invariant proves its invariant.
-- Users/Cards: backend/domains/users/payment_method_service.py and payment_method_repository.py;
--   Cards/AtMostOne proves its invariant.
-- Users/ActiveRole: backend/domains/users/active_role_service.py over Auth/Tokens and Admin/Roles;
--   ActiveRole/Once proves its property.
-- Users/Favorites: backend/domains/users/favorites_repository.py with its endpoints in
--   favorites_router.py; Favorites/Trail proves its property.
-- Users/Documents: backend/domains/users/provider_documents_service.py, with the daily check of
--   backend/workers/document_expiry_checker.py in Documents/Expiry and their sequences in
--   Documents/Requests; Reminded (over Reminders), Upload and Vetted below it prove their properties.
-- Users/Portfolio: backend/domains/users/provider_portfolio_service.py, with the limit of photos in
--   Portfolio/Limit.
-- Providers/Verification: the identity check (backend/domains/providers/verification_router.py,
--   backend/domains/users/provider_verification_service.py and the events of Stripe Identity), and the
--   decisions of administrators on it in Verification/Decisions (backend/domains/admin/repository.py);
--   Verification/Approval (over Saves) proves what an approval rests on.
-- Providers/Application: backend/domains/users/provider_profile_service.py, its later requests in
--   Application/Requests and the decisions of administrators in Application/Decisions; Kept (over Steps
--   and Complete) proves its invariant.
-- Payments/Webhook: backend/domains/payments/webhook_router.py, the dispatcher over Payments/Intents,
--   Providers/Verification and Users/Cards; Webhook/Once proves that an event takes effect once.
-- Users/ContactChange: backend/domains/users/contact_change_service.py in the transaction of its
--   requests; Guesses, SingleUse and RoundTrip below it prove its properties.
-- Users/Include: backend/domains/users/include_spec.py, with its round trip in Include/RoundTrip.
-- Idempotency: backend/app/core/idempotency.py; Idempotency/Replay proves what a repeated request gets,
--   Idempotency/Keys that callers are kept apart.
-- Promos: backend/domains/promos/service.py, with its properties in Promos/Usable and
--   Promos/Preview.
-- Reviews: backend/domains/reviews/service.py and repository.py, with their properties in
--   Reviews/Invariant and Reviews/Unrated, over the cases of Reviews/Cases.
-- Auth/Tokens: refresh tokens, their rotation and its races (backend/domains/auth/service.py and
--   refresh_token_repository.py); Auth/Tokens/SingleUse proves the properties of rotation.
-- Auth/Login: authenticate_user and its lock; Auth/Login/Bound counts guesses.
-- Auth/TwoFactor: backend/domains/auth/totp_service.py; TwoFactor/BackupCodes and TwoFactor/Enrolment
--   prove its properties.
-- Auth/PasswordReset: backend/domains/auth/password_reset_token_repository.py with its two endpoints in
--   routers/password.py; PasswordReset/SingleUse proves its property.
-- Auth/StepUp: backend/app/core/step_up.py; StepUp/Recent relates its cache and its column.
-- Admin/Refunds: the endpoints of backend/domains/admin/router.py that change a booking, with
--   backend/domains/admin/repository.py; Refunds/Cap proves the cap of refunds.
-- Admin/Roles: the endpoints of roles and permissions; Roles/Cache is the cached check of
--   backend/domains/auth/service.py, and Roles/Staleness proves how old its answer can be.
--
-- Conventions. A key (UUID) is a number, a datetime a number of microseconds, money a number of
-- cents. uuid4 is a counter. sha256, the HMAC of a fare, the digest of a body, the random tokens,
-- the Redis client of step-up, the payment processor, the buckets of files and the comparison
-- of a password are parameters. Stripe is a parameter of the model: a function for each SDK call
-- that answers or raises; so is the conversion of wall-clock times (zoneinfo) and the calendar of
-- week days. One reading of the clock serves a request.
--
-- Bounds and fuel. The search for a double's exponent has 120 rounds, enough for every quotient
-- that the code forms, which lie between 2 ^ -60 and 2 ^ 53. The loop over slots gets one round
-- for each half hour of the working hours, and one more, which suffices.
--
-- Not modelled: of authentication, the list of sessions, passkeys and social login; the score
-- and the search of a ride's candidates (accept_ride assigns a detailer without an overlap check,
-- so rides are outside the calendar invariant), the seal of the ledger, credits,
-- the listings of providers, public pages, administrators' listings, their dashboard and the
-- moderation of reviews, notifications, realtime delivery, migrations and the frontends. Of the
-- modelled parts: log lines, coordinates of an address, the texts of error messages, and working
-- hours that do not parse.
pub mod Base
pub mod Float
pub mod Texts
pub mod Catalog
pub mod Pricing
pub mod Store
pub mod Appointments
pub mod Payments
pub mod Auth
pub mod Admin
pub mod Idempotency
pub mod Promos
pub mod Providers
pub mod Reviews
pub mod Rides
pub mod Users
