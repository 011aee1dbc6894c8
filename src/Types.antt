-- ===== src/Types.antt =====
-- The data that the services share: types/margin_offer.go, types/errors.go, types/requests.go,
-- types/interfaces.go.
pub mod Float
pub mod Time
pub mod Error
pub mod Offer
pub mod Filter
pub mod Pool
